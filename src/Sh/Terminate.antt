-- ===== src/Sh/Terminate.antt =====
-- nulterminate(), and parsecmd() as a whole.
use large_project.Prelude.{
  ℕ, ◌+◌, ◌<◌, ◌≡◌, refl, ◌∙◌, inl, inr, List, [], ◌∷◌, ◌==◌, if◌then◌else◌, arith, Bool-cases,
}
use large_project.Disk.{update, update_self, update_other}
use large_project.Sh.{
  Text, Word, Cmd, execcmd, redircmd, pipecmd, listcmd, backcmd, Parsed, parsed, panics, spent,
  spaces, peek, resume,
}
use large_project.Sh.Parse.{parseline, parsecmd, nulterminate, end_words}
use large_project.Sh.Gettoken.{Ends}
use large_project.Sh.Safe.{AllIn, Inside, parseline-Ends}

-- Every word and name of a command ends in a NUL.
abbrev pub WordsEnd : Text → List Word → Type 0
WordsEnd line [] = Unit
WordsEnd line ((q, eq) ∷ ws) = (line eq ≡ 0) × WordsEnd line ws

abbrev pub Terminated : Text → Cmd → Type 0
Terminated line (execcmd args) = WordsEnd line args
Terminated line (redircmd c file efile mode fd) = Terminated line c × (line efile ≡ 0)
Terminated line (pipecmd l r) = Terminated line l × Terminated line r
Terminated line (listcmd l r) = Terminated line l × Terminated line r
Terminated line (backcmd c) = Terminated line c

-- The NULs of the one line are NULs of the other.
abbrev Nuls : Text → Text → Type 0
Nuls line after = (p : ℕ) → line p ≡ 0 → after p ≡ 0

WordsEnd-Nuls :
    (line after : Text) (ws : List Word) → Nuls line after → WordsEnd line ws → WordsEnd after ws
WordsEnd-Nuls line after [] n w = tt
WordsEnd-Nuls line after ((q, eq) ∷ ws) n (z, w) = (n eq z, WordsEnd-Nuls line after ws n w)

Terminated-Nuls :
    (line after : Text) (c : Cmd) → Nuls line after → Terminated line c → Terminated after c
Terminated-Nuls line after (execcmd args) n w = WordsEnd-Nuls line after args n w
Terminated-Nuls line after (redircmd c file efile mode fd) n (t, z) =
    (Terminated-Nuls line after c n t, n efile z)
Terminated-Nuls line after (pipecmd l r) n (t, u) =
    (Terminated-Nuls line after l n t, Terminated-Nuls line after r n u)
Terminated-Nuls line after (listcmd l r) n (t, u) =
    (Terminated-Nuls line after l n t, Terminated-Nuls line after r n u)
Terminated-Nuls line after (backcmd c) n t = Terminated-Nuls line after c n t

update-Nuls : (line : Text) (q : ℕ) → Nuls line (update line q 0)
update-Nuls line q p z = ground arith

end_words-Nuls : (line : Text) (ws : List Word) → Nuls line (end_words line ws)
unfolding end_words
end_words-Nuls line [] p z = z
end_words-Nuls line ((q, eq) ∷ ws) p z =
    end_words-Nuls (update line eq 0) ws p (update-Nuls line eq p z)

nulterminate-Nuls : (c : Cmd) (line : Text) → Nuls line (nulterminate c line)
unfolding nulterminate
nulterminate-Nuls (execcmd args) line p z = end_words-Nuls line args p z
nulterminate-Nuls (redircmd c file efile mode fd) line p z =
    update-Nuls (nulterminate c line) efile p (nulterminate-Nuls c line p z)
nulterminate-Nuls (pipecmd l r) line p z =
    nulterminate-Nuls r (nulterminate l line) p (nulterminate-Nuls l line p z)
nulterminate-Nuls (listcmd l r) line p z =
    nulterminate-Nuls r (nulterminate l line) p (nulterminate-Nuls l line p z)
nulterminate-Nuls (backcmd c) line p z = nulterminate-Nuls c line p z

end_words-WordsEnd : (line : Text) (ws : List Word) → WordsEnd (end_words line ws) ws
unfolding end_words
end_words-WordsEnd line [] = tt
end_words-WordsEnd line ((q, eq) ∷ ws) = (
  end_words-Nuls (update line eq 0) ws eq (update_self line eq 0),
  end_words-WordsEnd (update line eq 0) ws,
)

nulterminate-Terminated : (c : Cmd) (line : Text) → Terminated (nulterminate c line) c
unfolding nulterminate
nulterminate-Terminated (execcmd args) line = end_words-WordsEnd line args
nulterminate-Terminated (redircmd c file efile mode fd) line = (
  Terminated-Nuls (nulterminate c line) (update (nulterminate c line) efile 0) c
      (update-Nuls (nulterminate c line) efile) (nulterminate-Terminated c line),
  update_self (nulterminate c line) efile 0,
)
nulterminate-Terminated (pipecmd l r) line = (
  Terminated-Nuls (nulterminate l line) (nulterminate r (nulterminate l line)) l
      (nulterminate-Nuls r (nulterminate l line)) (nulterminate-Terminated l line),
  nulterminate-Terminated r (nulterminate l line),
)
nulterminate-Terminated (listcmd l r) line = (
  Terminated-Nuls (nulterminate l line) (nulterminate r (nulterminate l line)) l
      (nulterminate-Nuls r (nulterminate l line)) (nulterminate-Terminated l line),
  nulterminate-Terminated r (nulterminate l line),
)
nulterminate-Terminated (backcmd c) line = nulterminate-Terminated c line

-- Nothing is stored behind the end of the line.
end_words-behind :
    (es p : ℕ) (ws : List Word) (line : Text) → AllIn es ws → es < p → end_words line ws p ≡ line p
unfolding end_words
end_words-behind es p [] line a lt = refl
end_words-behind es p ((q, eq) ∷ ws) line ((i, j), a) lt =
    end_words-behind es p ws (update line eq 0) a lt ∙ update_other line eq 0 p (λ e. omega arith)

nulterminate-behind :
    (es p : ℕ) (c : Cmd) (line : Text) → Inside es c → es < p → nulterminate c line p ≡ line p
unfolding nulterminate
nulterminate-behind es p (execcmd args) line (n, a) lt = end_words-behind es p args line a lt
nulterminate-behind es p (redircmd c file efile mode fd) line (i, (j, k)) lt =
    update_other (nulterminate c line) efile 0 p (λ e. omega arith)
    ∙ nulterminate-behind es p c line i lt
nulterminate-behind es p (pipecmd l r) line (i, j) lt =
    nulterminate-behind es p r (nulterminate l line) j lt ∙ nulterminate-behind es p l line i lt
nulterminate-behind es p (listcmd l r) line (i, j) lt =
    nulterminate-behind es p r (nulterminate l line) j lt ∙ nulterminate-behind es p l line i lt
nulterminate-behind es p (backcmd c) line i lt = nulterminate-behind es p c line i lt

-- What parsecmd() returns for a line that ends at `es`.
abbrev pub Commands : Text → ℕ → Parsed (Cmd × Text) → Type 0
Commands line es (parsed (c, after) at) =
    (at ≡ es) × Inside es c × Terminated after c × ((p : ℕ) → es < p → after p ≡ line p)
Commands line es (panics e) = Unit
Commands line es spent = ⊥

-- parsecmd() of a string always ends, with a command or in panic(). A command that it returns was read
-- to the end of the string; each of its words and file names lies in the string, is not empty and ends
-- in a NUL, which nulterminate() has stored; no argv has more entries than fit with its end mark; and no
-- byte behind the string has changed.
pub parsecmd-Commands :
    (line : Text) (n s : ℕ) → line (s + n) ≡ 0 → Commands line (s + n) (parsecmd line n s)
unfolding parsecmd Ends peek
parsecmd-Commands line n s nul =
    at_end (parseline line (s + n) (n + 1) s)
      (parseline-Ends line (s + n) nul (n + 1) s (omega arith) (omega arith))
  where
    at_end :
        (r : Parsed Cmd)
        → Ends line (s + n) (Inside (s + n)) s r
        → Commands line (s + n) (
            resume r (λ c from. resume (peek line (s + n) [] from) (λ none at.
              if at == s + n then parsed (c, nulterminate c line) at else panics "syntax")))
    at_end (panics e) h = tt
    at_end spent h = h
    at_end (parsed c from) (lo, hi, i) = elim (Bool-cases (spaces line (s + n) from == s + n)) [
      | inl y ↦ rw y (
        ground (arith, y),
        i,
        nulterminate-Terminated c line,
        λ p lt. nulterminate-behind (s + n) p c line i lt,
      )
      | inr f ↦ rw f tt
    ]
