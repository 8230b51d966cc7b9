-- ===== src/Syscall/Tests.antt =====
-- A process of one page whose stack holds two pointers.
use large_project.Prelude.{◌+◌, ◌*◌, ◌%◌, ◌<◌, ◌≤◌, ◌≡◌, refl, some, if◌then◌else◌, ◌==◌, arith}
use large_project.Prelude.Param.{uint_mod}
use large_project.Syscall.{
  User, argint, argptr, argstr, fetchint, fetchstr, find_nul, check_ptr, with_length,
}
use large_project.Syscall.Bounds.{HoldsWord, HoldsString, argptr-inside, argstr-HoldsString}

-- Argument 0 is 512, and at 512 stands "hi".
abbrev one_page_user : User
one_page_user = record {
  memory = λ a. if a == 4005 then 2 else if a == 512 then 104 else if a == 513 then 105 else 0;
  sz = 4096;
  esp = 4000;
}

argptr_accepts : argptr one_page_user 0 3584 ≡ some 512
unfolding argptr argint fetchint check_ptr
argptr_accepts = refl

argptr-inside_example :
    HoldsWord one_page_user ((4000 + 4 + 4 * 0) % uint_mod) 512 × (512 + 3584 ≤ 4096) × (512 < 4096)
argptr-inside_example = argptr-inside one_page_user 0 3584 512 (omega arith) argptr_accepts

argstr_accepts : argstr one_page_user 0 ≡ some (512, 2)
unfolding argstr argint fetchint fetchstr find_nul with_length
argstr_accepts = refl

argstr-HoldsString_example :
    HoldsWord one_page_user ((4000 + 4 + 4 * 0) % uint_mod) 512 × HoldsString one_page_user 512 2
argstr-HoldsString_example = argstr-HoldsString one_page_user 0 512 2 (omega arith) argstr_accepts
