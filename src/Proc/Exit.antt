-- ===== src/Proc/Exit.antt =====
-- exit(): its children go to init, its parent is woken, and no waiting process is left behind.
use large_project.Prelude.{
  ℕ, ◌+◌, ◌<◌, ◌≡◌, ◌≢◌, sym, ap, ◌∙◌, subst, ◌⊎◌, inl, inr, true, false, List, some, ◌==◌,
  get_elem?, arith, Bool-cases, Option-cases,
}
use large_project.Proc.{modify}
use large_project.Proc.Table.{zombie, state_eq, Chan, proc_chan, Proc, is_child, wakeup1}
use large_project.Proc.Life.{reparent_at}
use large_project.Proc.Reap.{
  Waiting, ZombieChild, NoneMissed, wakeup1-some, modify-some, wake-parent, wakeup1-Waiting,
  wakeup1-woken, wakeup1-ZombieChild,
}

pub is_child-parent : (cur : ℕ) (p : Proc) → is_child cur p ≡ true → p.parent ≡ some cur
is_child-parent cur p h = ground arith

pub is_child-false : (cur : ℕ) (p : Proc) → is_child cur p ≡ false → p.parent ≢ some cur
is_child-false cur p h e = ground arith

-- Handing a process to another parent.
abbrev pub adopt : ℕ → Proc → Proc
adopt initproc q = record q { parent = some initproc }

pub adopt-Waiting :
    (ps : List Proc) (k initproc i : ℕ) → Waiting (modify ps k (adopt initproc)) i → Waiting ps i
adopt-Waiting ps k initproc i (p, e, s, h) =
    let (q, g, f) = modify-some ps k i (adopt initproc) e in
    (q, g, ground (arith, f), ground (arith, f))

adopt-ZombieChild :
    (ps : List Proc) (k initproc i j : ℕ)
    → ZombieChild (modify ps k (adopt initproc)) i j
    → ZombieChild ps i j
      ⊎ ((i ≡ initproc) × (p : Proc) × (get_elem? ps k ≡ some p) × (p.state ≡ zombie))
adopt-ZombieChild ps k initproc i j (p, e, s, h) =
    let (q, g, f) = modify-some ps k j (adopt initproc) e in
    elim f [
      | inl (a, b) ↦ inr (ground (arith, b), q, ap (get_elem? ps) a ∙ g, ground (arith, b))
      | inr (a, b) ↦ inl (q, g, ground (arith, b), ground (arith, b))
    ]

module _ (cur initproc : ℕ) where
  -- What one turn of the loop does, by cases.
  pub reparent_at-cases :
      (i : ℕ) (ps : List Proc)
      → ((reparent_at cur initproc i ps ≡ ps)
          × ((p : Proc) → get_elem? ps i ≡ some p → p.parent ≢ some cur))
        ⊎ ((p : Proc) × (get_elem? ps i ≡ some p)
            × (p.parent ≡ some cur)
            × (((p.state ≢ zombie) × (reparent_at cur initproc i ps ≡ modify ps i (adopt initproc)))
                ⊎ (reparent_at cur initproc i ps
                    ≡ wakeup1 (proc_chan initproc) (modify ps i (adopt initproc)))))
  unfolding reparent_at
  reparent_at-cases i ps = elim (Option-cases (get_elem? ps i)) [
    | inl e ↦ inl (ground (arith, e), λ p g. ground (arith, e, g))
    | inr (p, e) ↦ elim (Bool-cases (is_child cur p)) [
      | inl c ↦ inr (
        p,
        e,
        is_child-parent cur p c,
        elim (Bool-cases (state_eq p.state zombie)) [
          | inl z ↦ inr (ground (arith, e, c, z))
          | inr z ↦ inl (λ q. ground (arith, q, z), ground (arith, e, c, z))
        ],
      )
      | inr c ↦ inl (ground (arith, e, c), λ q g. is_child-false cur q (ground (arith, e, g, c)))
    ]
  ]

  pub reparent_at-Waiting :
      (i k : ℕ) (ps : List Proc) → Waiting (reparent_at cur initproc i ps) k → Waiting ps k
  reparent_at-Waiting i k ps w = elim (reparent_at-cases i ps) [
    | inl (e, _) ↦ subst (λ t. Waiting t k) e w
    | inr (p, g, c, inl (z, e)) ↦ adopt-Waiting ps i initproc k (subst (λ t. Waiting t k) e w)
    | inr (p, g, c, inr e) ↦ adopt-Waiting ps i initproc k (
        wakeup1-Waiting (proc_chan initproc) (modify ps i (adopt initproc)) k
          (subst (λ t. Waiting t k) e w))
  ]

  adopt-NoneMissed :
      (i : ℕ) (ps : List Proc) (p : Proc)
      → get_elem? ps i ≡ some p
      → p.state ≢ zombie
      → NoneMissed ps
      → NoneMissed (modify ps i (adopt initproc))
  adopt-NoneMissed i ps p g z v k j w y = elim (adopt-ZombieChild ps i initproc k j y) [
    | inl y' ↦ v k j (adopt-Waiting ps i initproc k w) y'
    | inr (a, q, h, s) ↦ z (ground (arith, g, h, s))
  ]

  adopt_wake-NoneMissed :
      (i : ℕ) (ps : List Proc)
      → NoneMissed ps
      → NoneMissed (wakeup1 (proc_chan initproc) (modify ps i (adopt initproc)))
  adopt_wake-NoneMissed i ps v k j w y =
      let c : Chan = proc_chan initproc in
      let ps' : List Proc = modify ps i (adopt initproc) in
      elim (adopt-ZombieChild ps i initproc k j (wakeup1-ZombieChild c ps' k j y)) [
        | inl y' ↦ v k j (adopt-Waiting ps i initproc k (wakeup1-Waiting c ps' k w)) y'
        | inr (a, q, h, s) ↦ wakeup1-woken ps' initproc (subst (λ t. Waiting (wakeup1 c ps') t) a w)
      ]

  pub reparent_at-NoneMissed :
      (i : ℕ) (ps : List Proc) → NoneMissed ps → NoneMissed (reparent_at cur initproc i ps)
  reparent_at-NoneMissed i ps v = elim (reparent_at-cases i ps) [
    | inl (e, _) ↦ subst NoneMissed (sym e) v
    | inr (p, g, c, inl (z, e)) ↦ subst NoneMissed (sym e) (adopt-NoneMissed i ps p g z v)
    | inr (p, g, c, inr e) ↦ subst NoneMissed (sym e) (adopt_wake-NoneMissed i ps v)
  ]

  -- No slot below `k` has `cur` for its parent.
  abbrev pub Childless : ℕ → List Proc → Type 0
  Childless k ps = (j : ℕ) (p : Proc) → j < k → get_elem? ps j ≡ some p → p.parent ≢ some cur

  adopt-Childless :
      (i : ℕ) (ps : List Proc)
      → initproc ≢ cur
      → Childless i ps
      → Childless (i + 1) (modify ps i (adopt initproc))
  adopt-Childless i ps ne v j p lt e c =
      let (q, g, f) = modify-some ps i j (adopt initproc) e in
      elim f [
        | inl (a, b) ↦ ne (ground (arith, b, c))
        | inr (a, b) ↦ v j q (omega arith) g (ground (arith, b, c))
      ]

  pub wakeup1-Childless :
      (k : ℕ) (c : Chan) (ps : List Proc) → Childless k ps → Childless k (wakeup1 c ps)
  wakeup1-Childless k c ps v j p lt e h =
      let (q, g, f) = wakeup1-some c ps j e in
      v j q lt g (sym (wake-parent c q) ∙ ap (λ r. r.parent) (sym f) ∙ h)

  pub reparent_at-Childless :
      (i : ℕ) (ps : List Proc)
      → initproc ≢ cur
      → Childless i ps
      → Childless (i + 1) (reparent_at cur initproc i ps)
  reparent_at-Childless i ps ne v = elim (reparent_at-cases i ps) [
    | inl (e, no_child) ↦ subst (Childless (i + 1)) (sym e) (λ j p lt g.
        elim (Bool-cases (i == j)) [
          | inl t ↦ no_child p (ap (get_elem? ps) (ground (arith, t)) ∙ g)
          | inr f ↦ v j p (ground (arith, f)) g
        ])
    | inr (p, g, c, inl (z, e)) ↦ subst (Childless (i + 1)) (sym e) (adopt-Childless i ps ne v)
    | inr (p, g, c, inr e) ↦ subst (Childless (i + 1)) (sym e) (
        wakeup1-Childless (i + 1) (proc_chan initproc) (modify ps i (adopt initproc))
          (adopt-Childless i ps ne v))
  ]
