-- ===== src/ToggleQueue.antt =====
-- app-nrf/include/util/toggle_queue.h. The two counters are uint32_t and wrap; `x & 1` is `x % 2`.
-- A function that updates `*queue` returns the new queue beside its result.
pub mod Spec
pub mod Refine
pub mod Length
mod Tests
use mymouse.Base.{
  ℕ, ◌+◌, ◌-◌, ◌%◌, ◌^◌, List, [], ◌∷◌, Bool, true, false, ◌==◌, if◌then◌else◌, Ret, ok, err,
  einval, enodata,
}
use mymouse.Base.Int.{ℤ, pos, negsuc, int32}

pub record ToggleQueue : Type 0 where
  pub head : ℕ
  pub tail : ℕ

abbrev pub of_bool : Bool → ℕ
of_bool true = 1
of_bool false = 0

unfoldable pub init : Bool → ToggleQueue
init initial_state = record { head = of_bool initial_state; tail = of_bool initial_state }

-- The unsigned difference, read as an `int`.
unfoldable pub len : ToggleQueue → ℤ
len q = int32 ((q.tail + 2 ^ 32 - q.head) % 2 ^ 32)

unfoldable pub put : ToggleQueue → Bool → ToggleQueue × Ret
put q event =
    if q.head % 2 == of_bool event
    then (q, err einval)
    else (record q { head = (q.head + 1) % 2 ^ 32 }, ok (of_bool event))

unfoldable pub get : ToggleQueue → ToggleQueue × Ret
get q =
    if q.tail == q.head
    then (q, err enodata)
    else (let tail' = (q.tail + 1) % 2 ^ 32 in (record q { tail = tail' }, ok (tail' % 2)))

unfoldable pub get_or_last : ToggleQueue → ToggleQueue × ℕ
get_or_last q =
    let tail' = if q.tail == q.head then q.tail else (q.tail + 1) % 2 ^ 32 in
    (record q { tail = tail' }, tail' % 2)

-- A client's calls in order, with what each returns.
pub data Op : Type 0 where
  put_op : Bool → Op
  get_op : Op
  get_or_last_op : Op

unfoldable pub step : ToggleQueue → Op → ToggleQueue × Ret
unfolding put get get_or_last
step q (put_op e) = put q e
step q get_op = get q
step q get_or_last_op = let (q', b) = get_or_last q in (q', ok b)

unfoldable pub run : ToggleQueue → List Op → List Ret
unfolding step
run q [] = []
run q (o ∷ os) = let (q', r) = step q o in r ∷ run q' os
