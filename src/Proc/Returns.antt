-- ===== src/Proc/Returns.antt =====
-- fork() returns wherever the functions that it calls do, and makes the child that it should.
use large_project.Prelude.{
  ℕ, ◌<◌, ◌≡◌, ◌≢◌, refl, sym, ap, ◌∙◌, subst, ◌⊎◌, inl, inr, Option, none, some, ◌==◌, get_elem?,
  arith, Bool-cases,
}
use large_project.Prelude.Int.{ℤ, pos, negsuc, int_of}
use large_project.Prelude.Outcome.{Outcome, ok, >>=-eq-ok, ok-injective}
use large_project.Proc.{
  Env, Ptable, allocproc, fork, fork_slot, fork_with, dup_files, copy_ofile, undo_child,
  become_child,
}
use large_project.Proc.Table.{unused, embryo, runnable, Proc}
use large_project.Proc.Reap.{get_elem?-modify}
use large_project.Proc.Pids.{UniquePids, NoNewPid-UniquePids, modify-NoNewPid}
use large_project.Proc.Fork.{int_max, IsFull, Taken, Allocated, allocproc-Allocated}
use large_project.Proc.Calm.{
  Returns, bind-Returns, no_files, copy_ofile-no_files, Calm, Dups, dup_files-Dups,
  dup_files-Returns,
}

module _ (env : Env) where
  open env use {State, kalloc, kfree, copyuvm, idup}

  -- Why fork() fails: no slot is UNUSED; or there is no page for a kernel stack; or copyuvm() fails,
  -- and the kernel stack is freed.
  abbrev pub Fails : Proc → Ptable → State → State → Type 0
  Fails c t s s' =
      (IsFull t.table × (s' ≡ s))
      ⊎ ((((kalloc s).0 ≡ 0) × (s' ≡ (kalloc s).1))
          ⊎ ((s2 : State) × (copyuvm c.pgdir c.sz (kalloc s).1 ≡ ok (0, s2))
              × (kfree (kalloc s).0 s2 ≡ ok s')))

  -- The child that fork() makes, in slot `p`, of the process `c` in slot `cur`.
  abbrev pub IsChild : ℕ → Proc → ℕ → ℕ → ℕ → Proc → Type 0
  IsChild cur c pid kstack pgdir p =
      (p.state ≡ runnable)
      × (p.pid ≡ pid)
      × (p.kstack ≡ kstack)
      × (p.pgdir ≡ pgdir)
      × (p.parent ≡ some cur)
      × (p.tf ≡ record c.tf { eax = 0 })
      × (p.sz ≡ c.sz)
      × (p.ofile ≡ c.ofile)
      × (p.cwd ≡ c.cwd)
      × (p.name ≡ c.name)

  -- What a fork() that returns has done: it failed, with -1; or a slot that was UNUSED holds the child,
  -- with the pid that was next, which fork() returns, the kernel stack that kalloc() gave and the page
  -- table that copyuvm() made, and the open files and the directory have been duplicated.
  abbrev pub Forked : ℕ → Proc → Ptable → State → ℤ → Ptable → State → Type 0
  Forked cur c t s r t' s' =
      ((r ≡ negsuc 0) × Fails c t s s')
      ⊎ ((i : ℕ) × (q : Proc) × (p : Proc) × (pgdir : ℕ) × (s2 : State) × (s3 : State) × (get_elem?
              t.table i
            ≡ some q)
          × (q.state ≡ unused)
          × (get_elem? t'.table i ≡ some p)
          × (r ≡ pos t.nextpid)
          × (copyuvm c.pgdir c.sz (kalloc s).1 ≡ ok (pgdir, s2))
          × (pgdir ≢ 0)
          × Dups env c.ofile s2 s3
          × (s' ≡ idup c.cwd s3)
          × IsChild cur c t.nextpid (kalloc s).0 pgdir p)

  module _ (cur : ℕ) (c : Proc) (t : Ptable) (s : State) (small : t.nextpid < int_max)
      (clean : (j : ℕ) (q : Proc)
        → get_elem? t.table j ≡ some q
        → q.state ≡ unused
        → q.ofile ≡ no_files c) where
    Good : ℤ × Ptable × State → Type 0
    Good y = UniquePids y.1.nextpid y.1.table × Forked cur c t s y.0 y.1 y.2

    -- The result of fork() is good.
    abbrev Done : Outcome (ℤ × Ptable × State) → Type 0
    Done m = (y : ℤ × Ptable × State) × (m ≡ ok y) × Good y

    fork_slot-Returns :
        (Sound : State → Type 0) (Stack : ℕ → State → Type 0) (i : ℕ) (np : Proc) (t1 : Ptable)
        (s1 : State)
        → Calm env c Sound Stack
        → Sound s1
        → Stack np.kstack s1
        → Returns (fork_slot env cur c i np t1 s1)
    unfolding fork_slot
    fork_slot-Returns Sound Stack i np t1 s1 calm sound stack =
        let (x, e, sound2, stack2) = calm.copyuvm_calm np.kstack s1 sound stack in
        bind-Returns (copyuvm c.pgdir c.sz s1) _ x e (elim (Bool-cases (x.0 == 0)) [
          | inl z ↦
              let (s3, e3) = calm.kfree_calm np.kstack x.1 stack2 in
              rw z (bind-Returns (kfree np.kstack x.1) _ s3 e3 (_, refl))
          | inr z ↦
              let (s3, e3) = dup_files-Returns env Sound c.ofile calm.filedup_calm x.1 sound2 in
              rw z (bind-Returns (dup_files env c.ofile x.1) _ s3 e3 (_, refl))
        ])

    pid-int : (n : ℕ) → n ≡ t.nextpid → int_of n ≡ pos t.nextpid
    pid-int n e = ground (arith, small, e)

    fork_slot-Good :
        (i : ℕ) (np q : Proc) (t1 : Ptable) (y : ℤ × Ptable × State)
        → UniquePids t1.nextpid t1.table
        → get_elem? t1.table i ≡ some np
        → get_elem? t.table i ≡ some q
        → Taken t.nextpid q (kalloc s).0 np
        → fork_slot env cur c i np t1 (kalloc s).1 ≡ ok y
        → Good y
    unfolding fork_slot Good
    fork_slot-Good i np q t1 y v g g0 (free, st, pid, some_stack, stack, files) h =
        let (x, e1, h1) = >>=-eq-ok (copyuvm c.pgdir c.sz (kalloc s).1) _ h in
        elim (Bool-cases (x.0 == 0)) [
          | inl z ↦
              let (s3, e2, h2) = >>=-eq-ok (kfree np.kstack x.1) _ (rw z at h1) in
              let zero_page : x.0 ≡ 0 = ground (arith, z) in
              subst Good (ok-injective _ _ h2) (
                NoNewPid-UniquePids t1.nextpid t1.table _
                    (modify-NoNewPid t1.table i (undo_child x.0) (λ p k u. absurd (u refl))) v,
                inl (
                  refl,
                  inr (
                      inr (
                        x.1,
                        e1 ∙ ap (λ d. ok (d, x.1)) zero_page,
                        ap (λ k. kfree k x.1) (sym stack) ∙ e2,
                      )),
                ),
              )
          | inr z ↦
              let (s3, e2, h2) = >>=-eq-ok (dup_files env c.ofile x.1) _ (rw z at h1) in
              let child = become_child cur c t1.ticks x.0 in
              subst Good (ok-injective _ _ h2) (
                NoNewPid-UniquePids t1.nextpid t1.table _
                    (modify-NoNewPid t1.table i child
                      (λ p k u. (λ w. embryo≢unused (sym st ∙ same p k ∙ w), refl)))
                    v,
                inr (
                  i,
                  q,
                  child np,
                  x.0,
                  x.1,
                  s3,
                  g0,
                  free,
                  ground (arith, g, get_elem?-modify t1.table i i child),
                  pid-int np.pid pid,
                  e1,
                  ground (arith, z),
                  dup_files-Dups env c.ofile x.1 s3 e2,
                  refl,
                  (
                    refl,
                    pid,
                    stack,
                    refl,
                    refl,
                    refl,
                    refl,
                    ap (copy_ofile c.ofile) (files ∙ clean i q g0 free)
                        ∙ copy_ofile-no_files c.ofile,
                    refl,
                    refl,
                  ),
                ),
              )
        ]
      where
        embryo≢unused : embryo ≡ unused → ⊥
        embryo≢unused e = cc

        same : (p : Proc) → get_elem? t1.table i ≡ some p → np.state ≡ p.state
        same p k = ground (arith, g, k)

    fork_with-Done :
        (Sound : State → Type 0) (Stack : ℕ → State → Type 0) (a : Option ℕ × Ptable × State)
        → Calm env c Sound Stack
        → Sound s
        → Allocated env t s a
        → Done (fork_with env cur c a)
    unfolding fork_with Good
    fork_with-Done Sound Stack (none, t1, s1) calm sound (v, why) = (
      (negsuc 0, t1, s1),
      refl,
      (v, inl (refl, elim why [ inl full ↦ inl full | inr no_page ↦ inr (inl no_page) ])),
    )
    fork_with-Done Sound Stack (some i, t1, s1) calm sound (v, from, (p, q, g, g0, tk)) =
        let (sound1, stack1) = calm.kalloc_calm s sound in
        let (_, _, _, some_stack, stack, _) = tk in
        let (y, e) =
          fork_slot-Returns Sound Stack i p t1 (kalloc s).1 calm sound1 (
            subst (λ k. Stack k (kalloc s).1) (sym stack) (stack1 (λ z. some_stack (stack ∙ z)))) in
        (
          y,
          rw (g, fork_with) (ap (fork_slot env cur c i p t1) from ∙ e),
          fork_slot-Good i p q t1 y v g g0 tk e,
        )

    -- Where the pids of live processes are apart and below the next one, this is below the largest int,
    -- UNUSED slots have no open file, and copyuvm(), kfree() and filedup() do not panic on the page
    -- table, the kernel stack and the open files that they are given, fork() returns. The pids are then
    -- apart and below the next one again. It returns -1 only where no slot was UNUSED, kalloc() gave no
    -- kernel stack, or copyuvm() failed, and then frees the stack. Otherwise it returns the pid that was
    -- next, and a slot that was UNUSED holds a RUNNABLE process with this pid, the new kernel stack, the
    -- page table that copyuvm() made, and the parent, size, registers (but for %eax, which is 0), open
    -- files, directory and name that the process that forked makes it have; each open file and the
    -- directory has been duplicated once.
    pub fork_returns :
        (Sound : State → Type 0) (Stack : ℕ → State → Type 0)
        → Calm env c Sound Stack
        → Sound s
        → UniquePids t.nextpid t.table
        → (r : ℤ) × (t' : Ptable) × (s' : State) × (fork env cur c t s ≡ ok (r, t', s'))
          × UniquePids t'.nextpid t'.table
          × Forked cur c t s r t' s'
    unfolding fork Good
    fork_returns Sound Stack calm sound v =
        let ((r, t', s'), e, good) =
          fork_with-Done Sound Stack (allocproc env t s) calm sound
            (allocproc-Allocated env t s small v) in
        (r, t', s', e, good.0, good.1)
