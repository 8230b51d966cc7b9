-- ===== src/Sh/Tests.antt =====
-- The parser on a command line.
use large_project.Prelude.{ℕ, zero, suc, ◌≡◌, refl, List, [], ◌∷◌}
use large_project.Sh.{
  Text, execcmd, redircmd, pipecmd, backcmd, parsed, one_of, skip, spaces, token_at, gettoken, peek,
}
use large_project.Sh.Parse.{
  redirect, add_arg, parseredirs, parseargs, parseblock, parseexec, parsepipe, parseback, parseline,
  parsecmd,
}
use large_project.Sh.Terminate.{Commands, parsecmd-Commands}

abbrev of_list : List ℕ → Text
of_list [] p = 0
of_list (c ∷ cs) zero = c
of_list (c ∷ cs) (suc p) = of_list cs p

-- "a b>c|d&"
abbrev line : Text
line = of_list (97 ∷ 32 ∷ 98 ∷ 62 ∷ 99 ∷ 124 ∷ 100 ∷ 38 ∷ [])

parseline_test :
    parseline line 8 9 0
    ≡ parsed
        (backcmd
          (pipecmd (redircmd (execcmd ((0, 1) ∷ (2, 3) ∷ [])) 4 5 0x201 1) (execcmd ((6, 7) ∷ []))))
        8
unfolding parseline parseback parsepipe parseexec parseblock parseargs parseredirs redirect add_arg
    peek gettoken spaces token_at skip one_of
parseline_test = refl

parsecmd-Commands_example : Commands line 8 (parsecmd line 8 0)
parsecmd-Commands_example = parsecmd-Commands line 8 0 refl
