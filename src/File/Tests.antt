-- ===== src/File/Tests.antt =====
-- A process with files 3 and 5 open, file 5 twice.
use large_project.Prelude.{ℕ, ◌+◌, true, false, [], ◌∷◌, none, some, if◌then◌else◌, ◌==◌, arith}
use large_project.File.{Files, fd_inode, sys_dup, sys_close}
use large_project.File.Pipes.{sys_pipe}
use large_project.File.Pipes.Fds.{Pipes, sys_pipe-Pipes}
use large_project.File.Refs.{
  occurrences, IsCounted, Counted, Closed, sys_dup-Counted, sys_close-Closed,
}

abbrev two_open : Files
two_open = record {
  ofile = some 3 ∷ some 5 ∷ some 5 ∷ none ∷ none ∷ [];
  ftable = λ i. record {
    kind = fd_inode;
    ref = (if 3 == i then 1 else 0) + (if 5 == i then 3 else 0);
    readable = true;
    writable = false;
    pipe = 0;
    ip = 900 + i;
    off = 0;
  };
}

-- Another process has file 5 open too.
abbrev other_process : ℕ → ℕ
other_process i = if 5 == i then 1 else 0

two_open-IsCounted : IsCounted other_process two_open
unfolding occurrences
two_open-IsCounted i = ground arith

sys_dup-Counted_example : Counted other_process (sys_dup two_open 1)
sys_dup-Counted_example = sys_dup-Counted other_process two_open 1 two_open-IsCounted

sys_close-Closed_example : Closed other_process (sys_close two_open 0)
sys_close-Closed_example = sys_close-Closed other_process two_open 0 two_open-IsCounted

sys_pipe-Pipes_example : Pipes other_process 4096 two_open (sys_pipe 4096 two_open)
sys_pipe-Pipes_example = sys_pipe-Pipes other_process 4096 two_open two_open-IsCounted
