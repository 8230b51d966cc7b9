-- ===== src/File/Pipes/Fds.antt =====
-- sys_pipe() and the descriptors.
use large_project.Prelude.{
  ℕ, suc, ◌≡◌, ◌≢◌, refl, sym, ap, ◌∙◌, zero, true, false, [], ◌∷◌, Option, none, some, ◌==◌,
  if◌then◌else◌, set, get_elem?, arith, ℕ_discrete,
}
use large_project.Prelude.Outcome.{Outcome, ok, panic, ◌>>=◌}
use large_project.File.{Ftable, Ofile, fdalloc, after_fd, Files}
use large_project.File.Refs.{occurrences, IsCounted, Placed, fdalloc-Placed}
use large_project.File.Pipes.{
  close_all, pipealloc, PipeResult, no_descriptor, second_fd, first_fd, give_fds, sys_pipe,
}
use large_project.File.Pipes.Opens.{ClosesBoth, close_all-ClosesBoth, IsEnd, Opens, pipealloc-Opens}

-- fdalloc() is undone by clearing the descriptor.
abbrev Undone : Ofile → Option (ℕ × Ofile) → Type 0
Undone o none = Unit
Undone o (some (fd, o')) = set o' fd none ≡ o

after_fd-Undone :
    (g : ℕ) (o : Ofile) (r : Option (ℕ × Ofile))
    → Undone o r
    → Undone (some g ∷ o) (after_fd (some g) r)
unfolding after_fd
after_fd-Undone g o none h = tt
after_fd-Undone g o (some (fd, o')) h = ap (λ x. some g ∷ x) h

fdalloc-Undone : (o : Ofile) (f : ℕ) → Undone o (fdalloc o f)
unfolding fdalloc
fdalloc-Undone [] f = tt
fdalloc-Undone (none ∷ o) f = refl
fdalloc-Undone (some g ∷ o) f = after_fd-Undone g o (fdalloc o f) (fdalloc-Undone o f)

-- fdalloc() takes a descriptor that is free, and leaves the others.
abbrev Puts : Ofile → ℕ → Option (ℕ × Ofile) → Type 0
Puts o f none = Unit
Puts o f (some (fd, o')) =
    (get_elem? o fd ≡ some none)
    × (get_elem? o' fd ≡ some (some f))
    × ((k : ℕ) → k ≢ fd → get_elem? o' k ≡ get_elem? o k)

after_fd-Puts :
    (g : ℕ) (o : Ofile) (f : ℕ) (r : Option (ℕ × Ofile))
    → Puts o f r
    → Puts (some g ∷ o) f (after_fd (some g) r)
unfolding after_fd
after_fd-Puts g o f none h = tt
after_fd-Puts g o f (some (fd, o')) (was, is, rest) = (was, is, at_slot)
  where
    at_slot : (k : ℕ) → k ≢ suc fd → get_elem? (some g ∷ o') k ≡ get_elem? (some g ∷ o) k
    at_slot zero ne = refl
    at_slot (suc k) ne = rest k (λ e. ne (ap suc e))

fdalloc-Puts : (o : Ofile) (f : ℕ) → Puts o f (fdalloc o f)
unfolding fdalloc
fdalloc-Puts [] f = tt
fdalloc-Puts (none ∷ o) f = (refl, refl, at_slot)
  where
    at_slot : (k : ℕ) → k ≢ zero → get_elem? (some f ∷ o) k ≡ get_elem? (none ∷ o) k
    at_slot zero ne = absurd (ne refl)
    at_slot (suc k) ne = refl
fdalloc-Puts (some g ∷ o) f = after_fd-Puts g o f (fdalloc o f) (fdalloc-Puts o f)

-- Two descriptors that were free refer to `f` and to `g`, and the others are as they were.
abbrev pub Gives : Ofile → Ofile → ℕ → ℕ → ℕ → ℕ → Type 0
Gives o o' fd0 fd1 f g =
    (fd0 ≢ fd1)
    × (get_elem? o fd0 ≡ some none)
    × (get_elem? o fd1 ≡ some none)
    × (get_elem? o' fd0 ≡ some (some f))
    × (get_elem? o' fd1 ≡ some (some g))
    × ((k : ℕ) → k ≢ fd0 → k ≢ fd1 → get_elem? o' k ≡ get_elem? o k)

Puts-Gives :
    (o o0 o1 : Ofile) (fd0 fd1 f g : ℕ)
    → Puts o f (some (fd0, o0))
    → Puts o0 g (some (fd1, o1))
    → Gives o o1 fd0 fd1 f g
Puts-Gives o o0 o1 fd0 fd1 f g (was, is, rest) (was', is', rest') = (
  ne,
  was,
  sym (rest fd1 (λ e. ne (sym e))) ∙ was',
  rest' fd0 ne ∙ is,
  is',
  λ k n n'. rest' k n' ∙ rest k n,
)
  where
    ne : fd0 ≢ fd1
    ne e = cc (sym is ∙ ap (get_elem? o0) e ∙ was')

-- What sys_pipe() has done: two descriptors for the ends of the pipe, in files that were not in use,
-- and nothing else to the descriptors; or nothing.
abbrev pub Pipes : (ℕ → ℕ) → ℕ → Files → PipeResult → Type 0
Pipes others page s (ok (none, s')) =
    (s'.ofile ≡ s.ofile) × ((i : ℕ) → (s'.ftable i).ref ≡ (s.ftable i).ref)
Pipes others page s (ok (some (fd0, fd1), s')) =
    IsCounted others s'
    × ((f : ℕ) × (g : ℕ) × (f ≢ g)
        × ((s.ftable f).ref ≡ 0)
        × ((s.ftable g).ref ≡ 0)
        × IsEnd page true (s'.ftable f)
        × IsEnd page false (s'.ftable g)
        × Gives s.ofile s'.ofile fd0 fd1 f g)
Pipes others page s (panic e) = ⊥

module _ (others : ℕ → ℕ) (page : ℕ) (s : Files) (counted : IsCounted others s) (f g : ℕ)
    (t : Ftable) (ne : f ≢ g) (zf : (s.ftable f).ref ≡ 0) (zg : (s.ftable g).ref ≡ 0)
    (refs : (i : ℕ) → (t i).ref ≡ (if f == i then 1 else if g == i then 1 else (s.ftable i).ref))
    (reads : IsEnd page true (t f)) (writes : IsEnd page false (t g)) where
  no_descriptor-Pipes : (o : Ofile) → o ≡ s.ofile → Pipes others page s (no_descriptor f g o t)
  unfolding no_descriptor
  no_descriptor-Pipes o same = closed (close_all (f ∷ g ∷ []) t) (
      close_all-ClosesBoth t f g (let a = refs f in ground arith) (let a = refs g in ground arith)
        ne)
    where
      closed :
          (r : Outcome Ftable)
          → ClosesBoth f g t r
          → Pipes others page s (r >>= λ t'. ok (none, record { ofile = o; ftable = t' }))
      closed (ok t') c = (
        same,
        λ i.
            let a = c i in
            let b = refs i in
            elim (ℕ_discrete f i) [
              | yes e ↦ let q = ap (λ j. (s.ftable j).ref) e in ground arith
              | no n ↦ elim (ℕ_discrete g i) [
                | yes e ↦ let q = ap (λ j. (s.ftable j).ref) e in ground arith
                | no m ↦ ground arith
              ]
            ],
      )
      closed (panic e) c = elim c [ ]

  second_fd-Pipes :
      (fd0 : ℕ) (o : Ofile) (r : Option (ℕ × Ofile))
      → set o fd0 none ≡ s.ofile
      → ((i : ℕ)
          → occurrences o i
            ≡ (if f == i then suc (occurrences s.ofile i) else occurrences s.ofile i))
      → ((i : ℕ) → Placed o g i r)
      → Puts s.ofile f (some (fd0, o))
      → Puts o g r
      → Pipes others page s (second_fd f g fd0 o t r)
  unfolding second_fd
  second_fd-Pipes fd0 o none undo more placed first second =
      no_descriptor-Pipes (set o fd0 none) undo
  second_fd-Pipes fd0 o (some (fd1, o1)) undo more placed first second = (
    (λ i.
        let a = more i in
        let b = placed i in
        let c = refs i in
        let d = counted i in
        elim (ℕ_discrete f i) [
          | yes e ↦ let q = ap (λ j. (s.ftable j).ref) e in ground arith
          | no n ↦ elim (ℕ_discrete g i) [
            | yes e ↦ let q = ap (λ j. (s.ftable j).ref) e in ground arith
            | no m ↦ ground arith
          ]
        ]),
    (f, g, ne, zf, zg, reads, writes, Puts-Gives s.ofile o o1 fd0 fd1 f g first second),
  )

  first_fd-Pipes :
      (r : Option (ℕ × Ofile))
      → Undone s.ofile r
      → ((i : ℕ) → Placed s.ofile f i r)
      → Puts s.ofile f r
      → Pipes others page s (first_fd f g s.ofile t r)
  unfolding first_fd
  first_fd-Pipes none undo placed puts = no_descriptor-Pipes s.ofile refl
  first_fd-Pipes (some (fd0, o0)) undo placed puts =
      second_fd-Pipes fd0 o0 (fdalloc o0 g) undo placed (λ i. fdalloc-Placed o0 g i) puts
        (fdalloc-Puts o0 g)

-- sys_pipe(), where each reference count is the number of the descriptors for its file, always returns.
-- Where it gives two descriptors, these were free and refer to two different files that were not in use,
-- the first to the end of the new pipe that only reads and the second to the end that only writes; the
-- other descriptors are as they were, and the counts are again those of the descriptors; where it returns -1, be it that files, memory or descriptors are
-- missing, the descriptors and every reference count are as before.
pub sys_pipe-Pipes :
    (others : ℕ → ℕ) (page : ℕ) (s : Files)
    → IsCounted others s
    → Pipes others page s (sys_pipe page s)
unfolding sys_pipe give_fds
sys_pipe-Pipes others page s counted =
    given (pipealloc page s.ftable) (pipealloc-Opens page s.ftable)
  where
    given :
        (r : Outcome (Option (ℕ × ℕ) × Ftable))
        → Opens page s.ftable r
        → Pipes others page s (r >>= λ r. give_fds s.ofile r)
    given (ok (none, t)) h = (refl, h)
    given (ok (some (f, g), t)) (ne, reads, writes, zf, zg, refs) =
        first_fd-Pipes others page s counted f g t ne zf zg refs reads writes (fdalloc s.ofile f)
          (fdalloc-Undone s.ofile f) (λ i. fdalloc-Placed s.ofile f i) (fdalloc-Puts s.ofile f)
    given (panic e) h = elim h [ ]
