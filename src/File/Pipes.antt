-- ===== src/File/Pipes.antt =====
-- pipealloc() of pipe.c and sys_pipe() of sysfile.c on the table of files and the descriptors. `page` is
-- what kalloc() returns where it is called, and 0 if no page is left. The pipe itself is in Pipe.
pub mod Opens
pub mod Fds
use large_project.Prelude.{
  ℕ, zero, suc, ◌+◌, ◌-◌, ◌≤◌, ◌<◌, ◌≡◌, ◌≢◌, refl, sym, ap, ◌∙◌, subst, ◌⊎◌, inl, inr, Bool, true,
  false, List, [], ◌∷◌, Option, none, some, ltb, ◌==◌, if◌then◌else◌, set, arith, ℕ_discrete,
  Bool-cases, Option-cases,
}
use large_project.Prelude.Outcome.{Outcome, ok, panic, ◌>>=◌}
use large_project.Prelude.Param.{nfile}
use large_project.File.{
  File, fd_none, fd_pipe, Ftable, set_file, find_free, take_slot, filealloc, fileclose, Closing,
  Ofile, fdalloc, after_fd, Files,
}

-- An end of the pipe in file `i`.
unfoldable pub set_end : Ftable → ℕ → ℕ → Bool → Ftable
set_end t i page reads = set_file t i (record (t i) {
  kind = fd_pipe;
  readable = reads;
  writable = if reads then false else true;
  pipe = page;
})

-- `bad:` in pipealloc(), with the files that it closes.
unfoldable pub close_all : List ℕ → Ftable → Outcome Ftable
unfolding fileclose
close_all [] t = ok t
close_all (f ∷ fs) t = fileclose t f >>= λ r. close_all fs r.0

-- pipealloc() with its first file, and with its second.
unfoldable pub with_second :
    ℕ → ℕ → Ftable → Option (ℕ × Ftable) → Outcome (Option (ℕ × ℕ) × Ftable)
unfolding close_all set_end
with_second page f0 t none = close_all (f0 ∷ []) t >>= λ t'. ok (none, t')
with_second page f0 t (some (f1, t1)) =
    if page == 0
    then (close_all (f0 ∷ f1 ∷ []) t1 >>= λ t'. ok (none, t'))
    else ok (some (f0, f1), set_end (set_end t1 f0 page true) f1 page false)

unfoldable pub with_first : ℕ → Ftable → Option (ℕ × Ftable) → Outcome (Option (ℕ × ℕ) × Ftable)
unfolding filealloc with_second
with_first page t none = ok (none, t)
with_first page t (some (f0, t0)) = with_second page f0 t0 (filealloc t0)

unfoldable pub pipealloc : ℕ → Ftable → Outcome (Option (ℕ × ℕ) × Ftable)
unfolding filealloc with_first
pipealloc page t = with_first page t (filealloc t)

abbrev pub PipeResult : Type 0
PipeResult = Outcome (Option (ℕ × ℕ) × Files)

-- sys_pipe() where a descriptor is missing: `o` are the descriptors without those it has taken.
unfoldable pub no_descriptor : ℕ → ℕ → Ofile → Ftable → PipeResult
unfolding close_all
no_descriptor rf wf o t =
    close_all (rf ∷ wf ∷ []) t >>= λ t'. ok (none, record { ofile = o; ftable = t' })

unfoldable pub second_fd : ℕ → ℕ → ℕ → Ofile → Ftable → Option (ℕ × Ofile) → PipeResult
unfolding no_descriptor
second_fd rf wf fd0 o t none = no_descriptor rf wf (set o fd0 none) t
second_fd rf wf fd0 o t (some (fd1, o1)) = ok (some (fd0, fd1), record { ofile = o1; ftable = t })

unfoldable pub first_fd : ℕ → ℕ → Ofile → Ftable → Option (ℕ × Ofile) → PipeResult
unfolding fdalloc no_descriptor second_fd
first_fd rf wf o t none = no_descriptor rf wf o t
first_fd rf wf o t (some (fd0, o0)) = second_fd rf wf fd0 o0 t (fdalloc o0 wf)

unfoldable pub give_fds : Ofile → Option (ℕ × ℕ) × Ftable → PipeResult
unfolding fdalloc first_fd
give_fds o (none, t) = ok (none, record { ofile = o; ftable = t })
give_fds o (some (rf, wf), t) = first_fd rf wf o t (fdalloc o rf)

-- sys_pipe() with its argument fetched: the two descriptors, `none` for -1.
unfoldable pub sys_pipe : ℕ → Files → PipeResult
unfolding pipealloc give_fds
sys_pipe page s = pipealloc page s.ftable >>= λ r. give_fds s.ofile r
