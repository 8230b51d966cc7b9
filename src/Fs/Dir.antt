-- ===== src/Fs/Dir.antt =====
-- fs.c: directories. A name is the list of its bytes before the NUL.
use Prim.Native.String.{String}
use large_project.Prelude.{
  ℕ, zero, suc, ◌+◌, ◌*◌, ◌/◌, ◌%◌, Bool, true, false, Option, none, some, List, [], ◌∷◌, ◌==◌,
  if◌then◌else◌,
}
use large_project.Fs.Layout.{Super, dirsiz}
use large_project.Fs.State.{Inode, M, ◌>>=◌, ◌>>◌, pure, stop, get_inode}
use large_project.Fs.Inode.{iget}
use large_project.Fs.Update.{iput}
use large_project.Fs.Content.{Devsw, t_dir, readi, writei}

-- struct dirent
pub record Dirent : Type 0 where
  pub inum : ℕ
  pub name : List ℕ

-- strncmp() of two names over `n` bytes gives 0.
unfoldable pub same_name : ℕ → List ℕ → List ℕ → Bool
same_name zero s t = true
same_name (suc n) [] [] = true
same_name (suc n) [] (y ∷ t) = y == 0
same_name (suc n) (x ∷ s) [] = x == 0
same_name (suc n) (x ∷ s) (y ∷ t) =
    let rest = same_name n s t in if x == y then (if x == 0 then true else rest) else false

-- namecmp(s, t) == 0
unfoldable pub namecmp : List ℕ → List ℕ → Bool
unfolding same_name
namecmp s t = same_name dirsiz s t

-- The entry in the bytes that readi() gave, if they are sizeof(de) bytes: a `ushort`, and the name.
unfoldable pub as_dirent : Option (List ℕ) → Option Dirent
as_dirent (some (lo ∷ hi ∷ a ∷ b ∷ c ∷ d ∷ e ∷ f ∷ g ∷ h ∷ i ∷ j ∷ k ∷ l ∷ m ∷ n ∷ [])) =
    some (record {
      inum = lo + 256 * hi;
      name = a ∷ b ∷ c ∷ d ∷ e ∷ f ∷ g ∷ h ∷ i ∷ j ∷ k ∷ l ∷ m ∷ n ∷ [];
    })
as_dirent r = none

-- strncpy() of a name into `n` bytes.
unfoldable pub name_bytes : ℕ → List ℕ → List ℕ
name_bytes zero s = []
name_bytes (suc n) [] = 0 ∷ name_bytes n []
name_bytes (suc n) (x ∷ s) = x ∷ name_bytes n s

unfoldable pub dirent_bytes : List ℕ → ℕ → List ℕ
unfolding name_bytes
dirent_bytes name inum = inum % 256 ∷ inum / 256 % 256 ∷ name_bytes dirsiz name

-- if (r != sizeof(de)) panic(s)
unfoldable pub sized : {A : Type 0} → String → Option A → M A
sized s none = stop s
sized s (some a) = pure a

module _ (sb : Super) (devsw : ℕ → Devsw) where
  -- The loop of dirlookup() from `off` on, over `n` entries: the inode and where its entry is.
  unfoldable pub lookup_from : ℕ → List ℕ → ℕ → ℕ → M (Option (ℕ × ℕ))
  unfolding get_inode readi as_dirent sized namecmp iget
  lookup_from dp name off zero = pure none
  lookup_from dp name off (suc n) =
      let rest = lookup_from dp name (off + 16) n in
      (do
        r ← readi sb devsw dp off 16
        de ← sized "dirlookup read" (as_dirent r)
        if de.inum == 0
            then rest
            else (if namecmp name de.name
                then (do d ← get_inode dp; ip ← iget d.dev de.inum; pure (some (ip, off)))
                else rest))

  -- The entries that the loops over a directory visit: `off < dp->size`.
  unfoldable pub dir_entries : Inode → ℕ
  dir_entries dp = (dp.size + 15) / 16

  unfoldable pub dirlookup : ℕ → List ℕ → M (Option (ℕ × ℕ))
  unfolding get_inode dir_entries lookup_from
  dirlookup dp name = do
    d ← get_inode dp
    if d.kind == t_dir then lookup_from dp name 0 (dir_entries d) else stop "dirlookup not DIR"

  -- The loop of dirlink() for an empty entry.
  unfoldable pub find_empty : ℕ → ℕ → ℕ → M ℕ
  unfolding readi as_dirent sized
  find_empty dp off zero = pure off
  find_empty dp off (suc n) =
      let rest = find_empty dp (off + 16) n in
      (do
        r ← readi sb devsw dp off 16
        de ← sized "dirlink read" (as_dirent r)
        if de.inum == 0 then pure off else rest)

  -- writei() of an entry, which must write all of it.
  unfoldable pub write_dirent : Option ℕ → M Bool
  write_dirent none = stop "dirlink"
  write_dirent (some n) = if n == 16 then pure true else stop "dirlink"

  -- dirlink() after dirlookup(). The result 0 is `true`, and -1 is `false`.
  unfoldable pub link_entry : ℕ → ℕ → List ℕ → ℕ → Option (ℕ × ℕ) → M Bool
  unfolding get_inode dir_entries find_empty dirent_bytes writei write_dirent iput
  link_entry me dp name inum (some (ip, at)) = do iput sb me ip; pure false
  link_entry me dp name inum none = do
    d ← get_inode dp
    off ← find_empty dp 0 (dir_entries d)
    r ← writei sb devsw dp (dirent_bytes name inum) off
    write_dirent r

  unfoldable pub dirlink : ℕ → ℕ → List ℕ → ℕ → M Bool
  unfolding dirlookup link_entry
  dirlink me dp name inum = do r ← dirlookup dp name; link_entry me dp name inum r
