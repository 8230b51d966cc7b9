-- ===== src/Proc/Tests.antt =====
-- The process table on concrete tables.
use large_project.Prelude.{
  ℕ, zero, suc, sym, ◌∙◌, ◌+◌, ◌<◌, ◌≡◌, ◌≢◌, refl, subst, Bool, ◌==◌, ◌||◌, if◌then◌else◌, true,
  false, List, [], ◌∷◌, Option, none, some, get_elem?, arith,
}
use large_project.Prelude.Int.{ℤ, pos}
use large_project.Prelude.Outcome.{ok, panic}
use large_project.Proc.{Env, Ptable, modify, find_unused, fork}
use large_project.Proc.Table.{
  Procstate, unused, embryo, sleeping, running, zombie, nil, proc_chan, Proc, kill,
}
use large_project.Proc.Life.{exit_table, scan, wait, wait_after, sleeps}
use large_project.Proc.Switch.{scheduler_loop, first_lowest}
use large_project.Proc.Reap.{NoneMissed}
use large_project.Proc.Zombie.{exit_table-NoneMissed}
use large_project.Proc.Wait.{Finds, scan-Finds, wait-sleeps}
use large_project.Proc.Starve.{Descends, scheduler_loop-Descends}
use large_project.Proc.Pids.{FindsSlot, UniquePids, find_unused-FindsSlot}
use large_project.Proc.Kill.{Killed, kill-Killed, kill_zero}
use large_project.Proc.Calm.{no_files, Calm}
use large_project.Proc.Returns.{Forked, fork_returns}

-- A process with a pid, a state and a parent.
abbrev process : ℕ → Procstate → Option ℕ → Proc
process i s up = record {
  sz = 4096;
  pgdir = 0x1000;
  kstack = 0x2000;
  state = s;
  pid = i;
  parent = up;
  tf = record { eax = 7; esp = 4000; eip = 0 };
  chan = nil;
  killed = false;
  ofile = 0 ∷ [];
  cwd = 1;
  name = 115 ∷ 104 ∷ [];
  ticks_at_start = 0;
  ticks_scheduled = 0;
  priority = pos 5;
}

abbrev free_slot : Proc
free_slot = process 0 unused none

-- init sleeps in wait(), its child 2 sleeps in wait() too, and that one's child 3 runs.
abbrev family : List Proc
family =
    record (process 1 sleeping none) { chan = proc_chan 0 }
    ∷ record (process 2 sleeping (some 0)) { chan = proc_chan 1 }
    ∷ process 3 running (some 1)
    ∷ free_slot
    ∷ []

abbrev family_table : Ptable
family_table = record { table = family; initproc = 0; nextpid = 4; ticks = 100 }

-- Memory is a counter of pages.
abbrev pages_env : Env
pages_env = record {
  State = ℕ;
  kalloc = λ s. (0x3000, s + 1);
  kfree = λ p s. ok s;
  copyuvm = λ d n s. ok (0x4000, s + 1);
  freevm = λ d s. ok s;
  filedup = λ f s. ok s;
  fileclose = λ f s. ok s;
  idup = λ i s. s;
  begin_op = λ s. s;
  iput = λ i s. ok s;
  end_op = λ s. ok s;
}

-- The slot of a process in the family tells its pid.
family_pid :
    (k : ℕ) (p : Proc)
    → get_elem? family k ≡ some p
    → p.state ≢ unused
    → (p.pid ≡ k + 1) × (k < 3) × (p.state ≢ zombie)
family_pid zero p g u = (ground (arith, g), omega arith, λ z. cc (g, z))
family_pid (suc zero) p g u = (ground (arith, g), omega arith, λ z. cc (g, z))
family_pid (suc (suc zero)) p g u = (ground (arith, g), omega arith, λ z. cc (g, z))
family_pid (suc (suc (suc zero))) p g u = absurd (u (ground (arith, g)))
family_pid (suc (suc (suc (suc k)))) p g u = cc

family-UniquePids : UniquePids 4 family
family-UniquePids = record {
  below = λ k p g u. let known = family_pid k p g u in omega (arith, known.0, known.1);
  distinct = λ j k p q g h u w e. omega (arith, e, (family_pid j p g u).0, (family_pid k q h w).0);
}

zombie≢unused : zombie ≡ unused → ⊥
zombie≢unused e = cc

family-NoneMissed : NoneMissed family
family-NoneMissed i j w (p, g, up, z) = (family_pid j p g (λ u. zombie≢unused (sym z ∙ u))).2 z

-- The state is the list of the allocated pages and the references of files. kfree() panics on a page
-- that is free, and filedup() on a file that is not open.
abbrev is_in : ℕ → List ℕ → Bool
is_in k [] = false
is_in k (p ∷ ps) = k == p || is_in k ps

abbrev strict_env : Env
strict_env = record {
  State = List ℕ × (ℕ → ℕ);
  kalloc = λ s. (0x3000, (0x3000 ∷ s.0, s.1));
  kfree = λ p s. if is_in p s.0 then ok s else panic "kfree";
  copyuvm = λ d n s. ok (0x4000, (0x4000 ∷ s.0, s.1));
  freevm = λ d s. ok s;
  filedup = λ f s.
      if s.1 f == 0 then panic "filedup" else ok (s.0, λ i. if i == f then s.1 f + 1 else s.1 i);
  fileclose = λ f s. ok s;
  idup = λ i s. s;
  begin_op = λ s. s;
  iput = λ i s. ok s;
  end_op = λ s. ok s;
}

-- Process 3 has file 5 open.
abbrev parent : Proc
parent = record (process 3 running (some 1)) { ofile = 5 ∷ [] }

abbrev FileOpen : List ℕ × (ℕ → ℕ) → Type 0
FileOpen s = 0 < s.1 5

abbrev IsAllocated : ℕ → List ℕ × (ℕ → ℕ) → Type 0
IsAllocated k s = is_in k s.0 ≡ true

parent_file : (j f : ℕ) → get_elem? parent.ofile j ≡ some f → 5 ≡ f
parent_file zero f e = ground (arith, e)
parent_file (suc j) f e = cc e

filedup_calm :
    (f : ℕ) (s : List ℕ × (ℕ → ℕ))
    → 5 ≡ f
    → FileOpen s
    → (s' : List ℕ × (ℕ → ℕ)) × (Env.filedup strict_env f s ≡ ok s') × FileOpen s'
filedup_calm f s e h =
    let used : (s.1 5 == 0) ≡ false = ground arith in
    subst (λ f. (s' : List ℕ × (ℕ → ℕ)) × (Env.filedup strict_env f s ≡ ok s') × FileOpen s') e
      ((s.0, λ i. if i == 5 then s.1 5 + 1 else s.1 i), rw used refl, omega arith)

parent-Calm : Calm strict_env parent FileOpen IsAllocated
parent-Calm = record {
  kalloc_calm = λ s h. (h, λ n. refl);
  copyuvm_calm = λ k s h e. ((0x4000, (0x4000 ∷ s.0, s.1)), refl, h, ground (arith, e));
  kfree_calm = λ k s e. (s, rw e refl);
  filedup_calm = λ j f s e n h. filedup_calm f s (parent_file j f e) h;
}

family-no_files :
    (j : ℕ) (q : Proc) → get_elem? family j ≡ some q → q.state ≡ unused → q.ofile ≡ no_files parent
family-no_files zero q g u = ground (arith, g)
family-no_files (suc zero) q g u = ground (arith, g)
family-no_files (suc (suc zero)) q g u = ground (arith, g)
family-no_files (suc (suc (suc zero))) q g u = ground (arith, g)
family-no_files (suc (suc (suc (suc j)))) q g u = cc

abbrev one_file : List ℕ × (ℕ → ℕ)
one_file = ([], λ f. if f == 5 then 1 else 0)

fork_returns_example :
    (r : ℤ) × (t' : Ptable) × (s' : List ℕ × (ℕ → ℕ)) × (fork strict_env 2 parent family_table
        one_file
      ≡ ok (r, t', s'))
    × UniquePids t'.nextpid t'.table
    × Forked strict_env 2 parent family_table one_file r t' s'
fork_returns_example =
    fork_returns strict_env 2 parent family_table one_file (omega arith) family-no_files FileOpen
      IsAllocated parent-Calm (omega arith) family-UniquePids

exit_table-NoneMissed_example :
    let ps' = exit_table 64 2 0 (some 1) family in
    (NoneMissed family → NoneMissed ps')
    × ((j : ℕ) (p : Proc) → get_elem? ps' j ≡ some p → p.parent ≢ some 2)
    × ((p : Proc) → get_elem? ps' 2 ≡ some p → (p.state ≡ zombie) × (p.parent ≡ some 1))
exit_table-NoneMissed_example =
    exit_table-NoneMissed 64 2 0 (process 3 running (some 1)) family refl (λ e. cc e)
      (λ e. omega arith) (omega arith)

scan-Finds_example : Finds 1 family (scan 1 family).0 (scan 1 family).1
scan-Finds_example = scan-Finds 1 family

-- Process 2 calls wait() while it runs.
abbrev caller : Proc
caller = process 2 running (some 0)

abbrev calling : Ptable
calling = record family_table { table = modify family 1 (λ p. caller) }

calling_sleeps : wait pages_env 1 caller calling 9 ≡ ok (sleeps (proc_chan 1), calling, 9)
unfolding wait wait_after scan
calling_sleeps = refl

wait-sleeps_example :
    (calling ≡ calling)
    × (◌≡◌ {A = ℕ} 9 9)
    × (proc_chan 1 ≡ proc_chan 1)
    × (false ≡ false)
    × ((j : ℕ) × (p : Proc) × (get_elem? calling.table j ≡ some p) × (p.parent ≡ some 1))
    × (NoneMissed calling.table
        → NoneMissed
            (modify calling.table 1 (λ p. record p { chan = proc_chan 1; state = sleeping })))
wait-sleeps_example =
    wait-sleeps pages_env 1 caller calling calling 9 9 (proc_chan 1) calling_sleeps

find_unused_test : FindsSlot 4 0 family (find_unused family 4 0).0 (find_unused family 4 0).1
find_unused_test = find_unused-FindsSlot family 4 0

-- Nobody else changes the table.
scheduler_loop-Descends_example :
    Descends first_lowest (scheduler_loop (λ i ps. ps) (λ ps. ps) 64 3 family first_lowest)
scheduler_loop-Descends_example =
    scheduler_loop-Descends (λ i ps. ps) (λ ps. ps) 64 3 family first_lowest

kill-Killed_example : Killed 2 family (kill 2 family)
kill-Killed_example = kill-Killed 2 family

freed_slot_test :
    let r = kill 0 (free_slot ∷ family) in
    let a = find_unused r.0 4 0 in
    (r.1 ≡ true)
    × (a.1 ≡ some 0)
    × (q : Proc) × (get_elem? a.0 0 ≡ some q)
    × (q.state ≡ embryo)
    × (q.killed ≡ true)
freed_slot_test = kill_zero free_slot family 4 refl refl
