-- ===== src/PidSet/Tests.antt =====
-- Runs of actor/pid_map.go.
use hollywood.Base.{◌≡◌, refl, true, false, none, some, List, [], ◌∷◌, lookup, insert, delete}
use hollywood.Pid.{Pid}
use hollywood.PidSet.{PidSet, contains, add, new_pid_set, add_all, remove_at, remove, index_of}
use hollywood.PidSet.Refinement.{
  Op, insert_one, remove_one, ask, spec_run, step, run, listed, run-new_pid_set,
}

abbrev pid_a : Pid
pid_a = record { address = "local"; id = "a" }

abbrev pid_b : Pid
pid_b = record { address = "local"; id = "b" }

abbrev pid_c : Pid
pid_c = record { address = "remote"; id = "a" }

abbrev calls : List Op
calls =
    remove_one pid_a ∷ ask pid_a ∷ ask pid_c ∷ remove_one pid_a ∷ insert_one pid_b ∷ ask pid_b ∷ []

calls-run :
    run (new_pid_set (pid_a ∷ pid_b ∷ pid_c ∷ [])) calls
    ≡ some true ∷ some false ∷ some true ∷ some false ∷ none ∷ some true ∷ []
unfolding run step new_pid_set add_all add contains remove index_of remove_at lookup insert delete
calls-run = refl

run-new_pid_set_example :
    run (new_pid_set (pid_a ∷ pid_b ∷ pid_a ∷ [])) calls
    ≡ spec_run (listed (pid_a ∷ pid_b ∷ pid_a ∷ [])) calls
run-new_pid_set_example = run-new_pid_set (pid_a ∷ pid_b ∷ pid_a ∷ []) calls

abbrev pair_set : PidSet
pair_set = new_pid_set (pid_a ∷ pid_b ∷ [])
