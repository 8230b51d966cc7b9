-- ===== src/Pipe/Tests.antt =====
-- A pipe that is nearly empty, with counters about to wrap.
use large_project.Prelude.{ℕ, ◌<◌, ◌≡◌, ◌⊎◌, true, false, List, [], ◌∷◌, if◌then◌else◌, arith}
use large_project.Pipe.{Pipe, pipewrite, piperead, Reads, reads, fails}
use large_project.Pipe.Contents.{count, IsValid}
use large_project.Pipe.Transfer.{Written, Taken, pipewrite-Written, piperead-Taken}

-- Two bytes stand at the end of the counters' range.
abbrev two_bytes : Pipe
two_bytes = record {
  data' = λ i. i;
  nread = 4294967294;
  nwrite = 0;
  readopen = true;
  writeopen = true;
  readers = 1;
  writers = 0;
}

two_bytes-IsValid : IsValid two_bytes
two_bytes-IsValid = record {
  nread_lt = omega arith;
  nwrite_lt = omega arith;
  bounded = omega arith;
}

pipewrite-Written_example :
    Written false 3 (7 ∷ 8 ∷ 9 ∷ []) two_bytes (pipewrite false 3 (7 ∷ 8 ∷ 9 ∷ []) two_bytes)
pipewrite-Written_example = pipewrite-Written false 3 (7 ∷ 8 ∷ 9 ∷ []) two_bytes two_bytes-IsValid

piperead-Taken_example :
    ((count two_bytes ≡ 0)
      × (true ≡ true)
      × (piperead false 5 two_bytes ≡ (
          if false then (fails, two_bytes) else (Reads.sleeps, record two_bytes { readers = 2 }))))
    ⊎ (((0 < count two_bytes) ⊎ (true ≡ false))
        × (bs : List ℕ) × (p' : Pipe) × (piperead false 5 two_bytes ≡ (reads bs, p'))
        × (p'.writers ≡ 0)
        × Taken 5 two_bytes bs p')
piperead-Taken_example = piperead-Taken false 5 two_bytes two_bytes-IsValid
