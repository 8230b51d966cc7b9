-- ===== src/Fs/Words.antt =====
-- The numbers of a block: what is stored at an offset is read there, and nowhere else.
use large_project.Prelude.{
  ℕ, zero, suc, ◌+◌, ◌*◌, ◌≤◌, ◌<◌, ◌≡◌, refl, ◌∙◌, ◌⊎◌, inl, arith, subst, ℕ_discrete,
}
use large_project.Prelude.Param.{uint_mod}
use large_project.Fs.Layout.{Bytes, get_short, put_short, get_word, put_word, put_words}

pub put_word-byte : (d : Bytes) (o v p : ℕ) → p < o ⊎ o + 4 ≤ p → put_word d o v p ≡ d p
unfolding put_word
put_word-byte d o v p h = ground arith

pub get_word-put_word : (d : Bytes) (o v : ℕ) → v < uint_mod → get_word (put_word d o v) o ≡ v
unfolding get_word put_word
get_word-put_word d o v lt = ground arith

pub get_short-put_short : (d : Bytes) (o v : ℕ) → v < 65536 → get_short (put_short d o v) o ≡ v
unfolding get_short put_short
get_short-put_short d o v lt = ground arith

pub put_words-byte :
    (d : Bytes) (o : ℕ) (f : ℕ → ℕ) (n p : ℕ) → p < o ⊎ o + 4 * n ≤ p → put_words d o f n p ≡ d p
unfolding put_words
put_words-byte d o f zero p h = refl
put_words-byte d o f (suc n) p h =
    put_word-byte (put_words d o f n) (o + 4 * n) (f n) p (grind arith)
    ∙ put_words-byte d o f n p (grind arith)

-- Equal bytes make equal numbers.
pub get_word-bytes :
    (d e : Bytes) (o : ℕ) → ((p : ℕ) → o ≤ p → p < o + 4 → d p ≡ e p) → get_word d o ≡ get_word e o
unfolding get_word
get_word-bytes d e o h =
    let b0 = h o (omega arith) (omega arith) in
    let b1 = h (o + 1) (omega arith) (omega arith) in
    let b2 = h (o + 2) (omega arith) (omega arith) in
    let b3 = h (o + 3) (omega arith) (omega arith) in omega arith

pub get_short-bytes :
    (d e : Bytes) (o : ℕ)
    → ((p : ℕ) → o ≤ p → p < o + 2 → d p ≡ e p)
    → get_short d o ≡ get_short e o
unfolding get_short
get_short-bytes d e o h =
    let b0 = h o (omega arith) (omega arith) in
    let b1 = h (o + 1) (omega arith) (omega arith) in omega arith

pub get_word-put_words :
    (d : Bytes) (o : ℕ) (f : ℕ → ℕ) (n i : ℕ)
    → i < n
    → ((j : ℕ) → j < n → f j < uint_mod)
    → get_word (put_words d o f n) (o + 4 * i) ≡ f i
unfolding put_words
get_word-put_words d o f zero i lt fits = absurd (omega arith)
get_word-put_words d o f (suc n) i lt fits = elim (ℕ_discrete n i) [
  | yes e ↦
      subst (λ k. get_word (put_word (put_words d o f n) (o + 4 * n) (f n)) (o + 4 * k) ≡ f k) e
        (get_word-put_word (put_words d o f n) (o + 4 * n) (f n) (fits n (omega arith)))
  | no ne ↦
      get_word-bytes (put_word (put_words d o f n) (o + 4 * n) (f n)) (put_words d o f n)
        (o + 4 * i)
        (λ p l h. put_word-byte (put_words d o f n) (o + 4 * n) (f n) p (inl (omega arith)))
      ∙ get_word-put_words d o f n i (omega arith) (λ j l. fits j (omega arith))
]
