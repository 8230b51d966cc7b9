-- ===== src/Umalloc/Tests.antt =====
-- malloc() and free() from an empty list.
use large_project.Prelude.{ℕ, ◌+◌, ◌-◌, ◌≡◌, refl, Option, none, some}
use large_project.Umalloc.{
  Arena, find_place, join_upper, join_lower, put_back, free, add_core, morecore, take_units,
  after_core, search, malloc,
}

abbrev empty : Arena
empty = record { next = λ p. 0; units = λ p. 0; freep = 0; brk = 1000 }

-- The address that malloc() returns
abbrev given : Option (ℕ × Arena) → Option ℕ
given none = none
given (some (p, a)) = some p

-- 100 bytes are 14 units with the header, at the end of a core of 4096.
malloc_test : given (malloc 5 100000 10 100 empty) ≡ some (1000 + 4096 - 14 + 1)
unfolding malloc search morecore add_core free put_back find_place join_upper join_lower take_units
    after_core
malloc_test = refl

-- There is no memory.
no_memory_test : given (malloc 5 100 10 100 empty) ≡ some 0
unfolding malloc search morecore add_core free put_back find_place join_upper join_lower take_units
    after_core
no_memory_test = refl
