-- ===== src/Fs/Follow.antt =====
-- What namex() finds, on a list of names in place of a path.
use large_project.Prelude.{
  ℕ, ◌≡◌, refl, ap, fun_ext, Bool, true, false, ◌&&◌, not, Option, none, some, List, [], ◌∷◌, ◌==◌,
  if◌then◌else◌, Bool-cases, inl, inr,
}
use large_project.Fs.Layout.{Super}
use large_project.Fs.State.{M, ◌>>=◌, ◌>>◌, pure, get_inode}
use large_project.Fs.Inode.{iget, idup, iunlock}
use large_project.Fs.Update.{ilock, iput, iunlockput}
use large_project.Fs.Content.{Devsw, t_dir}
use large_project.Fs.Dir.{dirlookup}
use large_project.Fs.Path.{enter, step_in, arrive, first_inode}

abbrev pub is_nil : List (List ℕ) → Bool
is_nil [] = true
is_nil (x ∷ xs) = false

-- An inode and a name.
abbrev pub Found : Type 0
Found = Option (ℕ × List ℕ)

module _ (sb : Super) (devsw : ℕ → Devsw) (me : ℕ) where
  -- The inode `ip` is locked, and `go` follows if it is a directory; otherwise it is put back.
  abbrev in_directory : ℕ → M Found → M Found
  in_directory ip go = do
    ilock sb me (some ip)
    e ← get_inode ip
    if not (e.kind == t_dir) then (do iunlockput sb me ip; pure none) else go

  -- The directory is put back once the name is looked up.
  abbrev put_back : ℕ → (ℕ → M Found) → Option (ℕ × ℕ) → M Found
  put_back ip go none = do iunlockput sb me ip; pure none
  put_back ip go (some (next, off)) = do iunlockput sb me ip; go next

  abbrev child : ℕ → List ℕ → (ℕ → M Found) → M Found
  child ip name go = do r ← dirlookup sb devsw ip name; put_back ip go r

  -- The inode that the names lead to from `ip`, each looked up in the directory that the one before
  -- led to; `seen` is the name before them.
  abbrev inode_at : ℕ → List ℕ → List (List ℕ) → M Found
  inode_at ip seen [] = pure (some (ip, seen))
  inode_at ip seen (name ∷ rest) = in_directory ip (child ip name (λ next. inode_at next name rest))

  -- The directory that all names but the last lead to, with the last name, which is not looked up;
  -- none where there is no name.
  abbrev parent_at : ℕ → List (List ℕ) → M Found
  parent_at ip [] = do iput sb me ip; pure none
  parent_at ip (name ∷ []) = in_directory ip (do iunlock me (some ip); pure (some (ip, name)))
  parent_at ip (name ∷ last ∷ rest) =
      in_directory ip (child ip name (λ next. parent_at next (last ∷ rest)))

  -- The root for a path that begins with a slash, and the current directory for any other.
  abbrev pub start : ℕ → List ℕ → M ℕ
  start cwd [] = idup cwd
  start cwd (c ∷ path) = if c == 47 then iget 1 1 else idup cwd

  pub first_inode-start :
      (cwd : ℕ) (path : List ℕ) → first_inode sb devsw me cwd path ≡ start cwd path
  unfolding first_inode
  first_inode-start cwd [] = refl
  first_inode-start cwd (c ∷ path) = elim (Bool-cases (c == 47)) [
    | inl y ↦ rw y refl
    | inr n ↦ rw n refl
  ]

  -- What namex() is to find.
  abbrev pub follow : Bool → ℕ → List ℕ → List (List ℕ) → M Found
  follow true ip seen ns = parent_at ip ns
  follow false ip seen ns = inode_at ip seen ns

  enter-put_back :
      (ip : ℕ) (r : Option (ℕ × ℕ)) (go : ℕ → M Found)
      → enter sb devsw me ip r go ≡ put_back ip go r
  unfolding enter
  enter-put_back ip none go = refl
  enter-put_back ip (some (next, off)) go = refl

  step_in-child :
      (ip : ℕ) (name : List ℕ) (parent last : Bool) (go : ℕ → M Found)
      → (parent && last) ≡ false
      → step_in sb devsw me parent ip name last go ≡ in_directory ip (child ip name go)
  unfolding step_in
  step_in-child ip name true true go e = absurd (cc e)
  step_in-child ip name true false go e =
      ap (λ k. in_directory ip (dirlookup sb devsw ip name >>= k))
        (fun_ext λ r. enter-put_back ip r go)
  step_in-child ip name false last go e =
      ap (λ k. in_directory ip (dirlookup sb devsw ip name >>= k))
        (fun_ext λ r. enter-put_back ip r go)

  step_in-last :
      (ip : ℕ) (name : List ℕ) (go : ℕ → M Found)
      → step_in sb devsw me true ip name true go ≡ parent_at ip (name ∷ [])
  unfolding step_in
  step_in-last ip name go = refl

  pub step_in-follow :
      (parent : Bool) (ip : ℕ) (seen name : List ℕ) (rest : List (List ℕ))
      → step_in sb devsw me parent ip name (is_nil rest) (λ next. follow parent next name rest)
        ≡ follow parent ip seen (name ∷ rest)
  step_in-follow true ip seen name [] = step_in-last ip name (λ next. follow true next name [])
  step_in-follow true ip seen name (x ∷ rest) = step_in-child ip name true false _ refl
  step_in-follow false ip seen name rest = step_in-child ip name false (is_nil rest) _ refl

  pub arrive-follow :
      (parent : Bool) (ip : ℕ) (seen : List ℕ)
      → arrive sb devsw me parent ip seen ≡ follow parent ip seen []
  unfolding arrive
  arrive-follow true ip seen = refl
  arrive-follow false ip seen = refl
