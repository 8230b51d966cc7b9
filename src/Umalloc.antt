-- ===== src/Umalloc.antt =====
-- umalloc.c: the circular free list of malloc() and free(). An address counts in headers of 8 bytes, and
-- 0 is null; `base` is the address of the static header. A loop has fuel, and `none` is its end.
mod Tests
use large_project.Prelude.{
  ℕ, zero, suc, ◌+◌, ◌-◌, ◌*◌, ◌/◌, ◌%◌, Bool, true, false, ◌&&◌, ◌||◌, Option, none, some, ltb,
  leb, ◌==◌, if◌then◌else◌,
}
use large_project.Prelude.Param.{uint_mod}
use large_project.Disk.{update}

-- `s.ptr` and `s.size` of the header at an address, and `freep`. `brk` is the end of memory, which
-- sbrk() moves up to `limit`.
pub record Arena : Type 0 where
  pub next : ℕ → ℕ
  pub units : ℕ → ℕ
  pub freep : ℕ
  pub brk : ℕ

abbrev pub set_next : ℕ → ℕ → Arena → Arena
set_next p v a = record a { next = update a.next p v }

abbrev pub set_units : ℕ → ℕ → Arena → Arena
set_units p v a = record a { units = update a.units p v }

-- The loop of free(): the entry behind which `bp` belongs.
unfoldable pub find_place : ℕ → Arena → ℕ → ℕ → Option ℕ
find_place zero a bp p = none
find_place (suc k) a bp p =
    let rest = find_place k a bp (a.next p) in
    if ltb p bp && ltb bp (a.next p)
    then some p
    else if leb (a.next p) p && (ltb p bp || ltb bp (a.next p))
    then some p
    else rest

-- The block joins the one above it,
unfoldable pub join_upper : ℕ → ℕ → Arena → Arena
join_upper bp p a =
    if bp + a.units bp == a.next p
    then set_next bp (a.next (a.next p)) (set_units bp (a.units bp + a.units (a.next p)) a)
    else set_next bp (a.next p) a

-- and the one below it.
unfoldable pub join_lower : ℕ → ℕ → Arena → Arena
join_lower bp p a =
    if p + a.units p == bp
    then set_next p (a.next bp) (set_units p (a.units p + a.units bp) a)
    else set_next p bp a

unfoldable pub put_back : ℕ → Arena → Option ℕ → Option Arena
unfolding join_upper join_lower
put_back bp a none = none
put_back bp a (some p) = some (record (join_lower bp p (join_upper bp p a)) { freep = p })

unfoldable pub free : ℕ → ℕ → Arena → Option Arena
unfolding find_place put_back
free fuel ap a = put_back (ap - 1) a (find_place fuel a (ap - 1) a.freep)

-- sbrk(), which gives the old end of memory or fails.
abbrev pub sbrk : ℕ → ℕ → Arena → Option (ℕ × Arena)
sbrk limit n a = if leb (a.brk + n) limit then some (a.brk, record a { brk = a.brk + n }) else none

abbrev pub min_units : ℕ → ℕ
min_units nu = if ltb nu 4096 then 4096 else nu

-- morecore() with the result of sbrk(): `freep` and the list, or null.
unfoldable pub add_core : ℕ → ℕ → Arena → Option (ℕ × Arena) → Option (ℕ × Arena)
unfolding free
add_core fuel nu a none = some (0, a)
add_core fuel nu a (some (p, a1)) = elim (free fuel (p + 1) (set_units p nu a1)) [
  | none ↦ none
  | some a2 ↦ some (a2.freep, a2)
]

unfoldable pub morecore : ℕ → ℕ → ℕ → Arena → Option (ℕ × Arena)
unfolding add_core
morecore fuel limit nu a = add_core fuel (min_units nu) a (sbrk limit (min_units nu) a)

-- A block that is large enough: all of it, or its tail.
unfoldable pub take_units : ℕ → ℕ → ℕ → Arena → ℕ × Arena
take_units nunits prevp p a =
    if a.units p == nunits
    then (p + 1, record (set_next prevp (a.next p) a) { freep = prevp })
    else let tail = p + (a.units p - nunits) in
      (
        tail + 1,
        record (set_units tail nunits (set_units p (a.units p - nunits) a)) { freep = prevp },
      )

-- The loop of malloc() goes on behind the new core.
unfoldable pub after_core :
    Option (ℕ × Arena) → (ℕ → Arena → Option (ℕ × Arena)) → Option (ℕ × Arena)
after_core none go = none
after_core (some (zero, a)) go = some (0, a)
after_core (some (suc p, a)) go = go (suc p) a

unfoldable pub search : ℕ → ℕ → ℕ → ℕ → ℕ → Arena → Option (ℕ × Arena)
unfolding morecore take_units after_core
search zero limit nunits prevp p a = none
search (suc fuel) limit nunits prevp p a =
    if leb nunits (a.units p)
    then some (take_units nunits prevp p a)
    else if p == a.freep
    then after_core (morecore (suc fuel) limit nunits a)
        (λ q b. search fuel limit nunits q (b.next q) b)
    else search fuel limit nunits p (a.next p) a

-- The list before the first call of malloc()
abbrev pub start_list : ℕ → Arena → Arena
start_list base a =
    if a.freep == 0 then record (set_units base 0 (set_next base base a)) { freep = base } else a

unfoldable pub malloc : ℕ → ℕ → ℕ → ℕ → Arena → Option (ℕ × Arena)
unfolding search
malloc fuel limit base nbytes a =
    let nunits = (nbytes + 7) % uint_mod / 8 + 1 in
    let b = start_list base a in search fuel limit nunits b.freep (b.next b.freep) b
