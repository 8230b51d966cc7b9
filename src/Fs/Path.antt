-- ===== src/Fs/Path.antt =====
-- fs.c: path names. A string is the list of its bytes before the NUL.
use large_project.Prelude.{
  ℕ, zero, suc, ◌+◌, Bool, true, false, ◌&&◌, not, Option, none, some, List, [], ◌∷◌, ◌==◌,
  if◌then◌else◌,
}
use large_project.Fs.Layout.{Super, dirsiz}
use large_project.Fs.State.{M, ◌>>=◌, ◌>>◌, pure, stop, get_inode}
use large_project.Fs.Inode.{iget, idup, iunlock}
use large_project.Fs.Update.{ilock, iput, iunlockput}
use large_project.Fs.Content.{Devsw, t_dir, byte_count}
use large_project.Fs.Dir.{dirlookup}

-- '/'
abbrev pub slash : ℕ
slash = 47

-- while(*path == '/') path++;
unfoldable pub skip_slashes : List ℕ → List ℕ
skip_slashes [] = []
skip_slashes (c ∷ path) = let rest = skip_slashes path in if c == slash then rest else c ∷ path

-- while(*path != '/' && *path != 0) path++; and what it passes.
unfoldable pub element : List ℕ → List ℕ
element [] = []
element (c ∷ path) = let rest = element path in if c == slash then [] else c ∷ rest

unfoldable pub after_element : List ℕ → List ℕ
after_element [] = []
after_element (c ∷ path) = let rest = after_element path in if c == slash then c ∷ path else rest

unfoldable pub first_bytes : ℕ → List ℕ → List ℕ
first_bytes zero s = []
first_bytes (suc n) [] = []
first_bytes (suc n) (c ∷ s) = c ∷ first_bytes n s

-- skipelem() behind its first loop. The name has DIRSIZ bytes, or fewer and a NUL.
unfoldable pub take_element : List ℕ → Option (List ℕ × List ℕ)
unfolding element after_element first_bytes skip_slashes
take_element [] = none
take_element (c ∷ path) =
    some (first_bytes dirsiz (element (c ∷ path)), skip_slashes (after_element (c ∷ path)))

-- The name and the path that is left.
unfoldable pub skipelem : List ℕ → Option (List ℕ × List ℕ)
unfolding skip_slashes take_element
skipelem path = take_element (skip_slashes path)

-- *path == '\0'
abbrev pub ends_here : List ℕ → Bool
ends_here [] = true
ends_here (c ∷ path) = false

abbrev pub rooted : List ℕ → Bool
rooted [] = false
rooted (c ∷ path) = c == slash

unfoldable pub inode_of : Option (ℕ × List ℕ) → Option ℕ
inode_of none = none
inode_of (some (ip, name)) = some ip

module _ (sb : Super) (devsw : ℕ → Devsw) (me : ℕ) where
  -- `next` in namex(), and the loop's next turn
  unfoldable pub enter :
      ℕ → Option (ℕ × ℕ) → (ℕ → M (Option (ℕ × List ℕ))) → M (Option (ℕ × List ℕ))
  unfolding iunlockput
  enter ip none go = do iunlockput sb me ip; pure none
  enter ip (some (next, off)) go = do iunlockput sb me ip; go next

  -- A turn of the loop of namex() for the element `name`, where `last` is `*path == '\0'`.
  unfoldable pub step_in :
      Bool → ℕ → List ℕ → Bool → (ℕ → M (Option (ℕ × List ℕ))) → M (Option (ℕ × List ℕ))
  unfolding get_inode ilock iunlock iunlockput dirlookup enter
  step_in parent ip name last go = do
    ilock sb me (some ip)
    e ← get_inode ip
    if not (e.kind == t_dir)
        then (do iunlockput sb me ip; pure none)
        else (if parent && last
            then (do iunlock me (some ip); pure (some (ip, name)))
            else (do r ← dirlookup sb devsw ip name; enter ip r go))

  -- namex() behind its loop, with the last element that it saw
  unfoldable pub arrive : Bool → ℕ → List ℕ → M (Option (ℕ × List ℕ))
  unfolding iput
  arrive true ip name = do iput sb me ip; pure none
  arrive false ip name = pure (some (ip, name))

  -- A turn of the loop with the result of skipelem(); `seen` is what `name` holds.
  unfoldable pub turn :
      Bool
      → ℕ
      → List ℕ
      → Option (List ℕ × List ℕ)
      → (ℕ → List ℕ → List ℕ → M (Option (ℕ × List ℕ)))
      → M (Option (ℕ × List ℕ))
  unfolding step_in arrive
  turn parent ip seen none go = arrive parent ip seen
  turn parent ip seen (some (name, path)) go =
      step_in parent ip name (ends_here path) (λ next. go next name path)

  -- The loop of namex(), with fuel.
  unfoldable pub walk : ℕ → Bool → ℕ → List ℕ → List ℕ → M (Option (ℕ × List ℕ))
  unfolding skipelem turn
  walk zero parent ip seen path = stop "fuel"
  walk (suc fuel) parent ip seen path =
      turn parent ip seen (skipelem path) (λ next name rest. walk fuel parent next name rest)

  -- The inode where a path begins: ROOTDEV and ROOTINO are 1, and `cwd` is the process's directory.
  unfoldable pub first_inode : ℕ → List ℕ → M ℕ
  unfolding iget idup
  first_inode cwd path = if rooted path then iget 1 1 else idup cwd

  unfoldable pub namex : ℕ → List ℕ → Bool → M (Option (ℕ × List ℕ))
  unfolding first_inode walk byte_count
  namex cwd path parent = do ip ← first_inode cwd path; walk (byte_count path + 1) parent ip [] path

  -- The inode of a path
  unfoldable pub namei : ℕ → List ℕ → M (Option ℕ)
  unfolding namex inode_of
  namei cwd path = do r ← namex cwd path false; pure (inode_of r)

  unfoldable pub nameiparent : ℕ → List ℕ → M (Option (ℕ × List ℕ))
  unfolding namex
  nameiparent cwd path = namex cwd path true
