-- ===== src/ToggleQueue/Tests.antt =====
-- The theorems on the toggle queue at concrete inputs.
use mymouse.Base.{◌-◌, ◌^◌, ◌≡◌, refl, List, [], ◌∷◌, false, ok, err, einval, enodata, arith}
use mymouse.ToggleQueue.{ToggleQueue, Op, put_op, get_op, get_or_last_op, run}
use mymouse.ToggleQueue.Refine.{run-levels, levels}
use mymouse.ToggleQueue.Spec

-- Two counters that are about to wrap, with one level stored.
abbrev near_wrap : ToggleQueue
near_wrap = record { head = 2 ^ 32 - 1; tail = 2 ^ 32 - 2 }

abbrev calls : List Op
calls = put_op false ∷ put_op false ∷ get_op ∷ get_or_last_op ∷ get_op ∷ get_or_last_op ∷ []

run_answers : run near_wrap calls ≡ ok 0 ∷ err einval ∷ ok 1 ∷ ok 0 ∷ err enodata ∷ ok 0 ∷ []
unfolding run
run_answers = refl

run-levels_example : run near_wrap calls ≡ Spec.run (levels near_wrap) calls
run-levels_example = run-levels near_wrap calls (omega arith) (omega arith)
