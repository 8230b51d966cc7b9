-- ===== src/Bio/Tests.antt =====
-- A cache of two buffers.
use large_project.Prelude.{true, false, List, [], ◌∷◌, arith}
use large_project.Bio.{Buf, bget}
use large_project.Bio.Unique.{copies, IsUnique, Got, bget-Got}

-- Block 40 of device 1 is in use, and the other buffer is fresh.
abbrev two_bufs : List Buf
two_bufs =
    record { id = 1; valid = true; dirty = true; dev = 1; blockno = 40; refcnt = 1 }
    ∷ record { id = 0; valid = false; dirty = false; dev = 0; blockno = 0; refcnt = 0 }
    ∷ []

two_bufs-IsUnique : IsUnique two_bufs
unfolding copies
two_bufs-IsUnique e m ne = ground arith

bget-Got_example : Got two_bufs (bget 1 41 two_bufs)
bget-Got_example = bget-Got 1 41 two_bufs two_bufs-IsUnique
