-- ===== src/Proc/Zombie.antt =====
-- The whole of exit()'s work on the table, and the scan of wait().
use large_project.Prelude.{
  ℕ, zero, suc, ◌+◌, ◌≤◌, ◌<◌, ◌≡◌, ◌≢◌, refl, sym, ap, ◌∙◌, subst, ◌⊎◌, inl, inr, List, [], ◌∷◌,
  Option, some, get_elem?, arith, length,
}
use large_project.Proc.{modify}
use large_project.Proc.Table.{zombie, Chan, proc_chan, Proc, wakeup1}
use large_project.Proc.Life.{chan_of, reparent_at, reparent, exit_table}
use large_project.Proc.Reap.{
  Waiting, ZombieChild, NoneMissed, wakeup1-some, modify-some, wake-parent, wakeup1-woken,
  wakeup1-NoneMissed,
}
use large_project.Proc.Exit.{
  adopt, Childless, reparent_at-cases, reparent_at-Waiting, reparent_at-NoneMissed,
  reparent_at-Childless,
}

length-wakeup1 : (c : Chan) (ps : List Proc) → length (wakeup1 c ps) ≡ length ps
unfolding wakeup1
length-wakeup1 c [] = refl
length-wakeup1 c (p ∷ ps) = ap suc (length-wakeup1 c ps)

length-modify : (ps : List Proc) (i : ℕ) (f : Proc → Proc) → length (modify ps i f) ≡ length ps
length-modify [] i f = refl
length-modify (p ∷ ps) zero f = refl
length-modify (p ∷ ps) (suc i) f = ap suc (length-modify ps i f)

get_elem?-lt : (ps : List Proc) (i : ℕ) {p : Proc} → get_elem? ps i ≡ some p → i < length ps
get_elem?-lt [] i e = cc
get_elem?-lt (q ∷ ps) zero e = omega arith
get_elem?-lt (q ∷ ps) (suc i) e = omega (arith, get_elem?-lt ps i e)

-- Slot `k`, if it is there, has the parent `v`.
abbrev ParentIs : Option ℕ → ℕ → List Proc → Type 0
ParentIs v k ps = (p : Proc) → get_elem? ps k ≡ some p → p.parent ≡ v

module _ (cur initproc : ℕ) where
  length-reparent_at : (i : ℕ) (ps : List Proc) → length (reparent_at cur initproc i ps) ≡ length ps
  length-reparent_at i ps = elim (reparent_at-cases cur initproc i ps) [
    | inl (e, _) ↦ ap length e
    | inr (p, g, c, inl (z, e)) ↦ ap length e ∙ length-modify ps i (adopt initproc)
    | inr (p, g, c, inr e) ↦
        ap length e
        ∙ length-wakeup1 (proc_chan initproc) (modify ps i (adopt initproc))
        ∙ length-modify ps i (adopt initproc)
  ]

  adopt-ParentIs :
      (v : Option ℕ) (i : ℕ) (ps : List Proc) (q : Proc)
      → get_elem? ps i ≡ some q
      → q.parent ≡ some cur
      → v ≢ some cur
      → ParentIs v cur ps
      → ParentIs v cur (modify ps i (adopt initproc))
  adopt-ParentIs v i ps q g c ne h p e =
      let (r, g', f) = modify-some ps i cur (adopt initproc) e in
      elim f [
        | inl (a, b) ↦ absurd (ne (sym (h q (ap (get_elem? ps) (sym a) ∙ g)) ∙ c))
        | inr (a, b) ↦ ap (λ t. t.parent) b ∙ h r g'
      ]

  wakeup1-ParentIs :
      (v : Option ℕ) (c : Chan) (ps : List Proc) → ParentIs v cur ps → ParentIs v cur (wakeup1 c ps)
  wakeup1-ParentIs v c ps h p e =
      let (q, g, f) = wakeup1-some c ps cur e in ap (λ r. r.parent) f ∙ wake-parent c q ∙ h q g

  reparent_at-ParentIs :
      (v : Option ℕ) (i : ℕ) (ps : List Proc)
      → v ≢ some cur
      → ParentIs v cur ps
      → ParentIs v cur (reparent_at cur initproc i ps)
  reparent_at-ParentIs v i ps ne h = elim (reparent_at-cases cur initproc i ps) [
    | inl (e, _) ↦ subst (ParentIs v cur) (sym e) h
    | inr (p, g, c, inl (z, e)) ↦ subst (ParentIs v cur) (sym e) (adopt-ParentIs v i ps p g c ne h)
    | inr (p, g, c, inr e) ↦ subst (ParentIs v cur) (sym e) (
        wakeup1-ParentIs v (proc_chan initproc) (modify ps i (adopt initproc))
          (adopt-ParentIs v i ps p g c ne h))
  ]

  -- What the loop keeps, and what it achieves.
  record Kept (v : Option ℕ) (ps ps' : List Proc) : Type 0 where
    size : length ps' ≡ length ps
    none_missed : NoneMissed ps → NoneMissed ps'
    fewer : (k : ℕ) → Waiting ps' k → Waiting ps k
    parent : v ≢ some cur → ParentIs v cur ps → ParentIs v cur ps'

  reparent-Kept :
      (v : Option ℕ) (n i : ℕ) (ps : List Proc) → Kept v ps (reparent cur initproc n i ps)
  unfolding reparent
  reparent-Kept v zero i ps = record {
    size = refl;
    none_missed = λ h. h;
    fewer = λ k w. w;
    parent = λ ne h. h;
  }
  reparent-Kept v (suc n) i ps =
      let r = reparent-Kept v n (i + 1) (reparent_at cur initproc i ps) in
      record {
        size = r.size ∙ length-reparent_at i ps;
        none_missed = λ h. r.none_missed (reparent_at-NoneMissed cur initproc i ps h);
        fewer = λ k w. reparent_at-Waiting cur initproc i k ps (r.fewer k w);
        parent = λ ne h. r.parent ne (reparent_at-ParentIs v i ps ne h);
      }

  reparent-Childless :
      (n i : ℕ) (ps : List Proc)
      → initproc ≢ cur
      → Childless cur initproc i ps
      → Childless cur initproc (n + i) (reparent cur initproc n i ps)
  unfolding reparent
  reparent-Childless zero i ps ne h = λ j p lt. h j p (omega arith)
  reparent-Childless (suc n) i ps ne h = λ j p lt.
      reparent-Childless n (i + 1) (reparent_at cur initproc i ps) ne
        (reparent_at-Childless cur initproc i ps ne h) j p (omega arith)

-- A process that becomes a zombie is a zombie child of its parent alone.
end-ZombieChild :
    (ps : List Proc) (cur i j : ℕ)
    → ZombieChild (modify ps cur (λ p. record p { state = zombie })) i j
    → ZombieChild ps i j ⊎ ((q : Proc) × (get_elem? ps cur ≡ some q) × (q.parent ≡ some i))
end-ZombieChild ps cur i j (p, e, s, h) =
    let (q, g, f) = modify-some ps cur j (λ p. record p { state = zombie }) e in
    elim f [
      | inl (a, b) ↦ inr (q, ap (get_elem? ps) a ∙ g, ground (arith, b))
      | inr (a, b) ↦ inl (q, g, ground (arith, b), ground (arith, b))
    ]

end-Waiting :
    (ps : List Proc) (cur i : ℕ)
    → Waiting (modify ps cur (λ p. record p { state = zombie })) i
    → Waiting ps i
end-Waiting ps cur i (p, e, s, h) =
    let (q, g, f) = modify-some ps cur i (λ p. record p { state = zombie }) e in
    elim f [
      | inl (a, b) ↦ absurd (ground (arith, b))
      | inr (a, b) ↦ (q, g, ground (arith, b), ground (arith, b))
    ]

-- exit() of the process in slot `cur`, which is neither init nor its own parent, in a table of at
-- most `nproc` slots: it becomes a zombie that keeps its parent, no slot has it for a parent any
-- more, and if no process waited beside a zombie child before, none does after.
pub exit_table-NoneMissed :
    (nproc cur initproc : ℕ) (c : Proc) (ps : List Proc)
    → get_elem? ps cur ≡ some c
    → c.parent ≢ some cur
    → initproc ≢ cur
    → length ps ≤ nproc
    → let ps' = exit_table nproc cur initproc c.parent ps in
      (NoneMissed ps → NoneMissed ps')
      × ((j : ℕ) (p : Proc) → get_elem? ps' j ≡ some p → p.parent ≢ some cur)
      × ((p : Proc) → get_elem? ps' cur ≡ some p → (p.state ≡ zombie) × (p.parent ≡ c.parent))
unfolding exit_table
exit_table-NoneMissed nproc cur initproc c ps here own other size = (
  λ v i j w y. elim (end-ZombieChild ps2 cur i j y) [
    | inl y' ↦
        kept.none_missed (wakeup1-NoneMissed (chan_of c.parent) ps v) i j (end-Waiting ps2 cur i w)
          y'
    | inr (q, g, h) ↦ wakeup1-woken ps i (
        subst (λ t. Waiting (wakeup1 (chan_of t) ps) i) (sym (parent q g) ∙ h)
          (kept.fewer i (end-Waiting ps2 cur i w)))
  ],
  λ j p e h.
      let (q, g, f) = modify-some ps2 cur j (λ r. record r { state = zombie }) e in
      childless j q
        (omega (arith, get_elem?-lt ps2 j g, kept.size, length-wakeup1 (chan_of c.parent) ps)) g
        (ground (arith, f, h)),
  λ p e.
      let (q, g, f) = modify-some ps2 cur cur (λ r. record r { state = zombie }) e in
      (ground (arith, f), ground (arith, f, parent q g)),
)
  where
    ps1 : List Proc
    ps1 = wakeup1 (chan_of c.parent) ps

    ps2 : List Proc
    ps2 = reparent cur initproc nproc 0 ps1

    kept : Kept cur initproc c.parent ps1 ps2
    kept = reparent-Kept cur initproc c.parent nproc 0 ps1

    same : ParentIs c.parent cur ps
    same p g = ground (arith, here, g)

    parent : ParentIs c.parent cur ps2
    parent = kept.parent own (wakeup1-ParentIs cur initproc c.parent (chan_of c.parent) ps same)

    childless : Childless cur initproc (nproc + 0) ps2
    childless = reparent-Childless cur initproc nproc 0 ps1 other (λ j p lt. absurd (omega arith))
