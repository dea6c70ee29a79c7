-- ===== src/ToggleQueue/Spec.antt =====
-- What a toggle queue promises: the levels that were put and not yet taken, oldest first, and the
-- level that was taken last. A level is refused when it repeats the newest one.
use mymouse.Base.{
  List, [], ◌∷◌, ◌++◌, Bool, true, false, not, if◌then◌else◌, Ret, ok, err, einval, enodata,
}
use mymouse.ToggleQueue.{Op, put_op, get_op, get_or_last_op, of_bool}

pub record Levels : Type 0 where
  pub level : Bool
  pub pending : List Bool

abbrev pub newest : Bool → List Bool → Bool
newest b [] = b
newest b (e ∷ es) = newest e es

abbrev pub same : Bool → Bool → Bool
same true b = b
same false b = not b

unfoldable pub put : Levels → Bool → Levels × Ret
put s e =
    if same (newest s.level s.pending) e
    then (s, err einval)
    else (record s { pending = s.pending ++ e ∷ [] }, ok (of_bool e))

abbrev pub take_next : Bool → List Bool → Levels × Ret
take_next b [] = (record { level = b; pending = [] }, err enodata)
take_next b (e ∷ es) = (record { level = e; pending = es }, ok (of_bool e))

abbrev pub take_or_last : Bool → List Bool → Levels × Ret
take_or_last b [] = (record { level = b; pending = [] }, ok (of_bool b))
take_or_last b (e ∷ es) = (record { level = e; pending = es }, ok (of_bool e))

unfoldable pub step : Levels → Op → Levels × Ret
unfolding put
step s (put_op e) = put s e
step s get_op = take_next s.level s.pending
step s get_or_last_op = take_or_last s.level s.pending

unfoldable pub run : Levels → List Op → List Ret
unfolding step
run s [] = []
run s (o ∷ os) = let (s', r) = step s o in r ∷ run s' os
