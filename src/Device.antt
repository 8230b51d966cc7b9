-- ===== src/Device.antt =====
-- null.c, zero.c and dhello.c: devices without state. A read stores into the caller's memory; a string
-- constant is the address where it stands.
use large_project.Prelude.{ℕ, zero, suc, ◌+◌, ltb, ◌==◌, if◌then◌else◌}
use large_project.Disk.{update}
use large_project.Strings.{Memory}

-- nullread() and nullwrite() store nothing and return `n`.
unfoldable pub nullread : Memory → ℕ → ℕ → Memory × ℕ
nullread mem dst n = (mem, n)

unfoldable pub nullwrite : Memory → ℕ → ℕ → Memory × ℕ
nullwrite mem buf n = (mem, n)

-- The loop of s_cnputs() from `count` on, with `n` characters of room left: the memory, and `count` at
-- its end.
unfoldable pub put_chars : Memory → ℕ → ℕ → ℕ → ℕ → Memory × ℕ
put_chars mem out str count zero = (mem, count)
put_chars mem out str count (suc n) =
    let rest = put_chars (update mem (out + count) (mem (str + count))) out str (count + 1) n in
    if mem (str + count) == 0 then (mem, count) else rest

-- s_cnputs() of zero.c and of dhello.c, whose result does not count the NUL.
unfoldable pub cnputs : Memory → ℕ → ℕ → ℕ → Memory × ℕ
unfolding put_chars
cnputs mem out n str =
    let r = put_chars mem out str 0 n in
    ((if ltb r.1 n then update r.0 (out + r.1) 0 else r.0), r.1)

-- zeroread(), with "0" at `str`.
unfoldable pub zeroread : ℕ → Memory → ℕ → ℕ → Memory × ℕ
unfolding cnputs
zeroread str mem dst n = cnputs mem dst n str

-- helloread(), with "Hello, World!" at `str`.
unfoldable pub helloread : ℕ → Memory → ℕ → ℕ → Memory × ℕ
unfolding cnputs
helloread str mem dst n = cnputs mem dst n str

unfoldable pub hellowrite : Memory → ℕ → ℕ → Memory × ℕ
hellowrite mem buf n = (mem, 0)
