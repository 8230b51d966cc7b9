-- ===== src/Bio/Unique.antt =====
-- No block has two buffers.
use large_project.Prelude.{
  ℕ, suc, ◌+◌, ◌≤◌, ◌≡◌, ◌≢◌, refl, ap₂, ◌∙◌, inl, inr, true, false, not, ◌&&◌, List, [], ◌∷◌,
  Option, none, some, ◌==◌, if◌then◌else◌, arith, Bool-cases,
}
use large_project.Prelude.Outcome.{Outcome, ok, panic}
use large_project.Bio.{
  Buf, holds, behind, find_cached, take_or, recycle, or_panic, or_recycle, bget,
}

-- How many buffers hold a block.
unfoldable pub copies : ℕ → ℕ → List Buf → ℕ
copies d n [] = 0
copies d n (b ∷ bs) = let rest = copies d n bs in if holds d n b then suc rest else rest

-- The same blocks have buffers after the first loop; if it finds none, the block has none.
abbrev Cached : ℕ → ℕ → List Buf → Option (ℕ × List Buf) → Type 0
Cached d n bs none = copies d n bs ≡ 0
Cached d n bs (some r) = (e m : ℕ) → copies e m r.1 ≡ copies e m bs

behind-Cached :
    (d n : ℕ) (b : Buf) (bs : List Buf) (r : Option (ℕ × List Buf))
    → holds d n b ≡ false
    → Cached d n bs r
    → Cached d n (b ∷ bs) (behind b r)
unfolding copies behind
behind-Cached d n b bs none h c = rw h c
behind-Cached d n b bs (some r) h c = λ e m. rw (c e m) refl

find_cached-Cached : (d n : ℕ) (bs : List Buf) → Cached d n bs (find_cached d n bs)
unfolding find_cached copies
find_cached-Cached d n [] = refl
find_cached-Cached d n (b ∷ bs) = elim (Bool-cases (holds d n b)) [
  | inl y ↦ rw y (λ e m. refl)
  | inr y ↦ rw y (behind-Cached d n b bs (find_cached d n bs) y (find_cached-Cached d n bs))
]

-- Every buffer is referred to, or modified and not yet committed.
abbrev pub AllBusy : List Buf → Type 0
AllBusy [] = Unit {0}
AllBusy (b ∷ bs) = ((b.refcnt == 0 && not b.dirty) ≡ false) × AllBusy bs

-- The second loop adds one buffer for the block and none for any other.
abbrev Recycled : ℕ → ℕ → List Buf → Option (ℕ × List Buf) → Type 0
Recycled d n bs none = AllBusy bs
Recycled d n bs (some r) =
    (e m : ℕ) → copies e m r.1 ≤ copies e m bs + (if d == e && n == m then 1 else 0)

take_or-Recycled :
    (d n : ℕ) (b : Buf) (bs : List Buf) (r : Option (ℕ × List Buf))
    → Recycled d n bs r
    → Recycled d n (b ∷ bs) (take_or d n b bs r)
unfolding copies take_or
take_or-Recycled d n b bs (some r) c = λ e m. let here = c e m in ground arith
take_or-Recycled d n b bs none c = elim (Bool-cases (b.refcnt == 0 && not b.dirty)) [
  | inl y ↦ rw y (λ e m. ground arith)
  | inr y ↦ rw y (y, c)
]

recycle-Recycled : (d n : ℕ) (bs : List Buf) → Recycled d n bs (recycle d n bs)
unfolding recycle
recycle-Recycled d n [] = tt
recycle-Recycled d n (b ∷ bs) = take_or-Recycled d n b bs (recycle d n bs) (recycle-Recycled d n bs)

-- No block of a device but 0 has two buffers.
abbrev pub IsUnique : List Buf → Type 0
IsUnique bs = (e m : ℕ) → e ≢ 0 → copies e m bs ≤ 1

-- bget() panicked with every buffer busy, or left no block with two buffers.
abbrev pub Got : List Buf → Outcome (ℕ × List Buf) → Type 0
Got bs (ok r) = IsUnique r.1
Got bs (panic s) = AllBusy bs

or_panic-Got :
    (d n : ℕ) (bs : List Buf) (r : Option (ℕ × List Buf))
    → IsUnique bs
    → copies d n bs ≡ 0
    → Recycled d n bs r
    → Got bs (or_panic r)
unfolding or_panic
or_panic-Got d n bs none u z c = c
or_panic-Got d n bs (some r) u z c = λ e m ne.
    let one = u e m ne in
    let more = c e m in
    let none_yet = fresh e m in
    elim (Bool-cases (d == e && n == m)) [ inl y ↦ ground arith | inr y ↦ ground arith ]
  where
    fresh : (e m : ℕ) → (d == e && n == m) ≡ true → copies e m bs ≡ 0
    fresh e m y = ap₂ (λ k l. copies k l bs) (ground (arith, y)) (ground (arith, y)) ∙ z

or_recycle-Got :
    (d n : ℕ) (bs : List Buf) (r : Option (ℕ × List Buf))
    → IsUnique bs
    → Cached d n bs r
    → Got bs (or_recycle d n bs r)
unfolding or_recycle
or_recycle-Got d n bs none u c = or_panic-Got d n bs (recycle d n bs) u c (recycle-Recycled d n bs)
or_recycle-Got d n bs (some r) u c = λ e m ne. let same = c e m in let one = u e m ne in omega arith

-- Where no block of a device other than 0 has two buffers, bget() for any block leaves no such block
-- with two buffers, or panics; it panics only if every buffer is referred to or modified.
pub bget-Got : (d n : ℕ) (bs : List Buf) → IsUnique bs → Got bs (bget d n bs)
unfolding bget
bget-Got d n bs u = or_recycle-Got d n bs (find_cached d n bs) u (find_cached-Cached d n bs)
