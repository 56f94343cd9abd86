-- ===== src/StaticVec/Tests.antt =====
-- static_vec.rs: runs of the model, and the theorems at inputs that meet their hypotheses.
use cfw.Prelude.{ℕ, ◌≡◌, ◌⊎◌, refl, true, false, none, some, List, [], ◌∷◌, arith}
use cfw.StaticVec.{StaticVec, uninit, live, new, push_cloned}
use cfw.StaticVec.Laws.{Represents}
use cfw.StaticVec.Spec.{Op, do_push, do_pop, do_read, pushed, popped, contents, run, spec_run}
use cfw.StaticVec.Refine.{run_refines}
use cfw.StaticVec.Cloned.{Overwrites, push_cloned_unsound}

abbrev commands : List (Op ℕ)
commands = do_push 3 ∷ do_push 5 ∷ do_push 7 ∷ do_pop ∷ do_read ∷ []

run_refines_example :
    (v : StaticVec ℕ) × (run commands (new 2) ≡ some ((spec_run 2 commands []).0, v))
    × Represents 2 v (spec_run 2 commands []).1
run_refines_example = run_refines 2 commands

spec_runs :
    (spec_run 2 commands []).0
    ≡ pushed true ∷ pushed true ∷ pushed false ∷ popped (some 5) ∷ contents (3 ∷ []) ∷ []
spec_runs = refl

abbrev three : List ℕ
three = 3 ∷ []

abbrev one : StaticVec ℕ
one = record { entries = live 3 ∷ uninit ∷ []; len = 1 }

one-Represents : Represents 2 one three
one-Represents = record { room = refl; len_eq = refl; holds = (refl, ((λ h. h), tt)) }

push_cloned_example :
    ((three ≡ []) × (push_cloned 5 one ≡ none))
    ⊎ ((v' : StaticVec ℕ) × (push_cloned 5 one ≡ some (true, v')) × Overwrites 5 one v' three)
push_cloned_example = push_cloned_unsound 2 5 one three one-Represents (ground arith)
