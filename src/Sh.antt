-- ===== src/Sh.antt =====
-- sh.c: the parser of command lines. The line is a memory of bytes; pointers into it are positions,
-- `es` is its end, and the functions take and return the position `*ps`. The tree of commands is a
-- value: of the pointers to a command only that of parseexec() into its tree is shared.
pub mod Parse
pub mod Gettoken
pub mod Safe
pub mod Terminate
mod Tests
use Prim.Native.String.{String}
use large_project.Prelude.{
  ℕ, zero, suc, ◌+◌, ◌-◌, Bool, true, false, not, ◌&&◌, ◌||◌, List, [], ◌∷◌, ◌++◌, ◌==◌,
  if◌then◌else◌,
}
use large_project.Disk.{update}

abbrev pub Text : Type 0
Text = ℕ → ℕ

abbrev pub maxargs : ℕ
maxargs = 20

-- An entry of argv with its end in eargv.
abbrev pub Word : Type 0
Word = ℕ × ℕ

-- struct execcmd, redircmd, pipecmd, listcmd and backcmd
pub data Cmd : Type 0 where
  execcmd : List Word → Cmd
  redircmd : Cmd → (file efile mode fd : ℕ) → Cmd
  pipecmd : Cmd → Cmd → Cmd
  listcmd : Cmd → Cmd → Cmd
  backcmd : Cmd → Cmd

-- O_RDONLY, and O_WRONLY|O_CREATE
abbrev pub o_rdonly : ℕ
o_rdonly = 0

abbrev pub o_create : ℕ
o_create = 0x201

-- strchr(toks, c) != 0
unfoldable pub one_of : List ℕ → ℕ → Bool
one_of [] c = false
one_of (t ∷ toks) c = let rest = one_of toks c in if t == c then true else rest

-- " \t\r\n\v" and "<|>&;()"
abbrev pub whitespace : List ℕ
whitespace = 32 ∷ 9 ∷ 13 ∷ 10 ∷ 11 ∷ []

abbrev pub symbols : List ℕ
symbols = 60 ∷ 124 ∷ 62 ∷ 38 ∷ 59 ∷ 40 ∷ 41 ∷ []

-- The symbols of one character that gettoken() returns as they are: "|();&<"
abbrev pub single : List ℕ
single = 124 ∷ 40 ∷ 41 ∷ 59 ∷ 38 ∷ 60 ∷ []

-- '>', and what gettoken() returns for ">>" and for a word
abbrev pub gt_char : ℕ
gt_char = 62

abbrev pub append_tok : ℕ
append_tok = 43

abbrev pub word_tok : ℕ
word_tok = 97

-- while(s < es && p(*s)) s++, where `n` is es - s
unfoldable pub skip : (ℕ → Bool) → Text → ℕ → ℕ → ℕ
skip p line zero s = s
skip p line (suc n) s = let rest = skip p line n (s + 1) in if p (line s) then rest else s

abbrev pub is_space : ℕ → Bool
is_space c = one_of whitespace c

abbrev pub in_word : ℕ → Bool
in_word c = not (one_of whitespace c) && not (one_of symbols c)

-- A token: what gettoken() returns, `*q` and `*eq`.
pub record Token : Type 0 where
  pub ret : ℕ
  pub q : ℕ
  pub eq : ℕ

-- How a function of the parser ends: with a value and `*ps`, in panic(), or out of fuel.
pub data Parsed (A : Type 0) : Type 0 where
  parsed : A → ℕ → Parsed A
  panics : String → Parsed A
  spent : Parsed A

abbrev pub Parser : Type 0 → Type 0
Parser A = ℕ → Parsed A

abbrev pub resume : {A B : Type 0} → Parsed A → (A → Parser B) → Parsed B
resume (parsed a s) k = k a s
resume (panics e) k = panics e
resume spent k = spent

infixl 5 ◌>>=◌
abbrev pub ◌>>=◌ : {A B : Type 0} (first : Parser A) (second : A → Parser B) → Parser B
◌>>=◌ first second s = resume (first s) second

abbrev pub give : {A : Type 0} → A → Parser A
give a s = parsed a s

abbrev pub panic : {A : Type 0} → String → Parser A
panic e s = panics e

module _ (line : Text) (es : ℕ) where
  -- Leading white space
  unfoldable pub spaces : ℕ → ℕ
  unfolding skip one_of
  spaces s = skip is_space line (es - s) s

  -- The switch of gettoken() at `s`.
  unfoldable pub token_at : ℕ → Token
  unfolding skip one_of
  token_at s =
      if line s == 0
      then record { ret = 0; q = s; eq = s }
      else if one_of single (line s)
      then record { ret = line s; q = s; eq = s + 1 }
      else if line s == gt_char
      then (if line (s + 1) == gt_char
          then record { ret = append_tok; q = s; eq = s + 2 }
          else record { ret = gt_char; q = s; eq = s + 1 })
      else record { ret = word_tok; q = s; eq = skip in_word line (es - s) s }

  unfoldable pub gettoken : Parser Token
  unfolding spaces token_at
  gettoken s = let t = token_at (spaces s) in parsed t (spaces t.eq)

  unfoldable pub peek : List ℕ → Parser Bool
  unfolding spaces one_of
  peek toks s = parsed (not (line (spaces s) == 0) && one_of toks (line (spaces s))) (spaces s)
