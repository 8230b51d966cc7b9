-- ===== src/Sh/Parse.antt =====
-- sh.c: the functions of the grammar. Each has fuel for its loop, and parseline() comes to those below
-- it as an argument, with less fuel.
use large_project.Prelude.{ℕ, zero, suc, ◌+◌, not, List, [], ◌∷◌, ◌++◌, ltb, ◌==◌, if◌then◌else◌}
use large_project.Disk.{update}
use large_project.Sh.{
  Text, Word, Cmd, execcmd, redircmd, pipecmd, listcmd, backcmd, maxargs, o_rdonly, o_create,
  gt_char, append_tok, word_tok, Token, Parsed, parsed, panics, spent, Parser, ◌>>=◌, give, panic,
  gettoken, peek,
}

-- The switch of parseredirs() on the first token, with the file's name in the second.
unfoldable pub redirect : Cmd → ℕ → Token → Cmd
redirect cmd tok t =
    if tok == 60
    then redircmd cmd t.q t.eq o_rdonly 0
    else if tok == gt_char
    then redircmd cmd t.q t.eq o_create 1
    else if tok == append_tok
    then redircmd cmd t.q t.eq o_create 1
    else cmd

-- cmd->argv[argc] = q; cmd->eargv[argc] = eq; through `cmd`, the command inside the redirections.
unfoldable pub add_arg : Word → Cmd → Cmd
add_arg w (execcmd args) = execcmd (args ++ w ∷ [])
add_arg w (redircmd c file efile mode fd) = redircmd (add_arg w c) file efile mode fd
add_arg w c = c

module _ (line : Text) (es : ℕ) where
  unfoldable pub parseredirs : ℕ → Cmd → Parser Cmd
  parseredirs zero cmd = λ s. spent
  parseredirs (suc fuel) cmd = peek line es (60 ∷ gt_char ∷ []) >>= λ more.
      if more
      then (gettoken line es >>= λ tok. gettoken line es >>= λ file.
          if file.ret == word_tok
          then parseredirs fuel (redirect cmd tok.ret file)
          else panic "missing file for redirection")
      else give cmd

  -- The loop of parseexec(), with `argc` words stored. The two stores behind it only mark the end.
  unfoldable pub parseargs : ℕ → ℕ → Cmd → Parser Cmd
  parseargs zero argc ret = λ s. spent
  parseargs (suc fuel) argc ret = peek line es (124 ∷ 41 ∷ 38 ∷ 59 ∷ []) >>= λ stop.
      if stop
      then give ret
      else (gettoken line es >>= λ tok.
          if tok.ret == 0
          then give ret
          else if not (tok.ret == word_tok)
          then panic "syntax"
          else if not (ltb (argc + 1) maxargs)
          then panic "too many args"
          else (parseredirs (suc fuel) (add_arg (tok.q, tok.eq) ret) >>= λ r.
              parseargs fuel (argc + 1) r))

  unfoldable pub parseblock : ℕ → Parser Cmd → Parser Cmd
  parseblock fuel parseline = peek line es (40 ∷ []) >>= λ begins.
      if not begins
      then panic "parseblock"
      else (gettoken line es >>= λ left. parseline >>= λ cmd. peek line es (41 ∷ []) >>= λ close.
          if not close
          then panic "syntax - missing )"
          else (gettoken line es >>= λ right. parseredirs fuel cmd))

  unfoldable pub parseexec : ℕ → Parser Cmd → Parser Cmd
  parseexec fuel parseline = peek line es (40 ∷ []) >>= λ begins.
      if begins
      then parseblock fuel parseline
      else (parseredirs fuel (execcmd []) >>= λ ret. parseargs fuel 0 ret)

  unfoldable pub parsepipe : ℕ → Parser Cmd → Parser Cmd
  parsepipe zero parseline = λ s. spent
  parsepipe (suc fuel) parseline = parseexec (suc fuel) parseline >>= λ cmd.
      peek line es (124 ∷ []) >>= λ more.
      if more
      then (gettoken line es >>= λ bar.
          parsepipe fuel parseline >>= λ right. give (pipecmd cmd right))
      else give cmd

  -- The loop of parseline() over '&'.
  unfoldable pub parseback : ℕ → Cmd → Parser Cmd
  parseback zero cmd = λ s. spent
  parseback (suc fuel) cmd = peek line es (38 ∷ []) >>= λ more.
      if more then (gettoken line es >>= λ amp. parseback fuel (backcmd cmd)) else give cmd

  unfoldable pub parseline : ℕ → Parser Cmd
  parseline zero = λ s. spent
  parseline (suc fuel) =
      let again = parseline fuel in
      (parsepipe (suc fuel) again >>= λ first. parseback (suc fuel) first >>= λ cmd.
      peek line es (59 ∷ []) >>= λ more.
      if more
      then (gettoken line es >>= λ semi. again >>= λ rest. give (listcmd cmd rest))
      else give cmd)

-- Every word and file name of a command ends in a NUL.
unfoldable pub end_words : Text → List Word → Text
end_words line [] = line
end_words line ((q, eq) ∷ args) = end_words (update line eq 0) args

unfoldable pub nulterminate : Cmd → Text → Text
unfolding end_words
nulterminate (execcmd args) line = end_words line args
nulterminate (redircmd c file efile mode fd) line = update (nulterminate c line) efile 0
nulterminate (pipecmd l r) line = nulterminate r (nulterminate l line)
nulterminate (listcmd l r) line = nulterminate r (nulterminate l line)
nulterminate (backcmd c) line = nulterminate c line

-- parsecmd() of the string of `n` characters at `s`: the command and the line it leaves.
unfoldable pub parsecmd : Text → ℕ → ℕ → Parsed (Cmd × Text)
parsecmd line n s =
    (parseline line (s + n) (n + 1) >>= λ cmd. peek line (s + n) [] >>= λ none.
    λ at. if at == s + n then parsed (cmd, nulterminate cmd line) at else panics "syntax")
      s
