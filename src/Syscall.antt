-- ===== src/Syscall.antt =====
-- syscall.c: the arguments of a system call, which the kernel checks before it uses them. An `int` is
-- the 32-bit word that represents it.
pub mod Bounds
mod Tests
use large_project.Prelude.{
  ℕ, zero, suc, ◌+◌, ◌-◌, ◌*◌, ◌%◌, ◌^◌, Bool, true, false, ◌||◌, Option, none, some, ltb, leb,
  ◌==◌, if◌then◌else◌,
}
use large_project.Prelude.Param.{uint_mod}
use large_project.Strings.{Memory}

infixl 5 ◌>>=◌
-- `if(f(...) < 0) return -1;`
abbrev pub ◌>>=◌ {ℓ κ} :
    {A : Type ℓ} {B : Type κ} (fetched : Option A) (rest : A → Option B) → Option B
none >>= rest = none
some a >>= rest = rest a

-- What the calls read of the current process: its memory and size, and `tf->esp`.
pub record User : Type 0 where
  pub memory : Memory
  pub sz : ℕ
  pub esp : ℕ

-- *(int*)addr, low byte first
abbrev pub word : Memory → ℕ → ℕ
word mem a = mem a + 256 * mem (a + 1) + 65536 * mem (a + 2) + 16777216 * mem (a + 3)

-- The test `x < 0` of the `int` that `x` represents.
abbrev pub is_negative : ℕ → Bool
is_negative x = leb (2 ^ 31) x

unfoldable pub fetchint : User → ℕ → Option ℕ
fetchint u addr =
    if leb u.sz addr || ltb u.sz ((addr + 4) % uint_mod) then none else some (word u.memory addr)

-- The loop of fetchstr(), which has looked at `k` characters, with `n` bytes left before `ep`.
unfoldable pub find_nul : Memory → ℕ → ℕ → ℕ → Option ℕ
find_nul mem addr k zero = none
find_nul mem addr k (suc n) =
    let rest = find_nul mem addr (k + 1) n in if mem (addr + k) == 0 then some k else rest

-- fetchstr(): the length of the string at `addr`.
unfoldable pub fetchstr : User → ℕ → Option ℕ
unfolding find_nul
fetchstr u addr = if leb u.sz addr then none else find_nul u.memory addr 0 (u.sz - addr)

unfoldable pub argint : User → ℕ → Option ℕ
unfolding fetchint
argint u n = fetchint u ((u.esp + 4 + 4 * n) % uint_mod)

-- The test of argptr() on a pointer `i` that it has fetched.
unfoldable pub check_ptr : User → ℕ → ℕ → Option ℕ
check_ptr u size i =
    if is_negative size || leb u.sz i || ltb u.sz ((i + size) % uint_mod) then none else some i

unfoldable pub argptr : User → ℕ → ℕ → Option ℕ
unfolding argint check_ptr
argptr u n size = do i ← argint u n; check_ptr u size i

-- The address of the string and its length, where fetchstr() accepts it.
unfoldable pub with_length : ℕ → Option ℕ → Option (ℕ × ℕ)
with_length addr none = none
with_length addr (some k) = some (addr, k)

unfoldable pub argstr : User → ℕ → Option (ℕ × ℕ)
unfolding argint fetchstr with_length
argstr u n = do addr ← argint u n; with_length addr (fetchstr u addr)
