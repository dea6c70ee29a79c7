-- ===== src/ToggleQueue/Refine.antt =====
-- The two counters of toggle_queue.h implement the queue of `Spec`.
use mymouse.Base.{
  ℕ, zero, suc, ◌+◌, ◌-◌, ◌%◌, ◌^◌, ◌≤◌, ◌<◌, ◌≡◌, ◌≢◌, refl, List, [], ◌∷◌, ◌++◌, Bool, true,
  false, not, ◌==◌, ok, length, arith, ap, ap₂, ◌∙◌, sym,
}
use mymouse.ToggleQueue.{
  ToggleQueue, Op, put_op, get_op, get_or_last_op, init, put, get, get_or_last, step, run,
}
use native.Mathlib.Decide.{ℕ_discrete}
use mymouse.ToggleQueue.Spec
use mymouse.ToggleQueue.Spec.{Levels, newest}

abbrev pub IsWord : ToggleQueue → Type 0
IsWord q = (q.head < 2 ^ 32) × (q.tail < 2 ^ 32)

-- The number of stored events.
abbrev pub count : ToggleQueue → ℕ
count q = (q.head + 2 ^ 32 - q.tail) % 2 ^ 32

abbrev pub odd : ℕ → Bool
odd n = n % 2 == 1

-- `n` levels in turn, after the level `b`.
abbrev pub alternate : Bool → ℕ → List Bool
alternate b zero = []
alternate b (suc n) = not b ∷ alternate (not b) n

-- The queue that the counters stand for.
abbrev pub levels : ToggleQueue → Levels
levels q = record { level = odd q.tail; pending = alternate (odd q.tail) (count q) }

pub length-alternate : (b : Bool) (n : ℕ) → length (alternate b n) ≡ n
length-alternate b zero = refl
length-alternate b (suc n) = ap suc (length-alternate (not b) n)

odd-suc : (t : ℕ) → odd (t + 1) ≡ not (odd t)
odd-suc t = ground arith

odd_wrap : (t : ℕ) → odd ((t + 1) % 2 ^ 32) ≡ not (odd t)
odd_wrap t = ground arith

newest-alternate : (n t : ℕ) → newest (odd t) (alternate (odd t) n) ≡ odd (t + n)
newest-alternate zero t = ground arith
newest-alternate (suc n) t = rw (← odd-suc t) (newest-alternate n (t + 1) ∙ ap odd (omega arith))

alternate-append :
    (b : Bool) (n : ℕ) → alternate b (suc n) ≡ alternate b n ++ not (newest b (alternate b n)) ∷ []
alternate-append b zero = refl
alternate-append b (suc n) = ap (λ l. not b ∷ l) (alternate-append (not b) n)

-- The newest level is the last bit of `head`.
newest-levels : (q : ToggleQueue) → IsWord q → newest (odd q.tail) (levels q).pending ≡ odd q.head
newest-levels q w = newest-alternate (count q) q.tail ∙ ground arith

count-put :
    (q : ToggleQueue)
    → IsWord q
    → count q + 1 < 2 ^ 32
    → count (record q { head = (q.head + 1) % 2 ^ 32 }) ≡ suc (count q)
count-put q w h = omega arith

alternate-put :
    (q : ToggleQueue)
    → IsWord q
    → count q + 1 < 2 ^ 32
    → alternate (odd q.tail) (count (record q { head = (q.head + 1) % 2 ^ 32 }))
      ≡ (levels q).pending ++ not (odd q.head) ∷ []
alternate-put q w h =
    ap (alternate (odd q.tail)) (count-put q w h)
    ∙ alternate-append (odd q.tail) (count q)
    ∙ ap (λ b. (levels q).pending ++ not b ∷ []) (newest-levels q w)

pub put-levels :
    (q : ToggleQueue) (e : Bool)
    → IsWord q
    → count q + 1 < 2 ^ 32
    → (levels (put q e).0 ≡ (Spec.put (levels q) e).0) × ((put q e).1 ≡ (Spec.put (levels q) e).1)
unfolding put Spec.put
put-levels q true w h = ground (arith, newest-levels q w, alternate-put q w h)
put-levels q false w h = ground (arith, newest-levels q w, alternate-put q w h)

count-get :
    (q : ToggleQueue)
    → IsWord q
    → q.tail ≢ q.head
    → count q ≡ suc (count (record q { tail = (q.tail + 1) % 2 ^ 32 }))
count-get q w h = omega arith

advance : ToggleQueue → ToggleQueue
advance q = record q { tail = (q.tail + 1) % 2 ^ 32 }

-- The pending levels before and after a level is taken.
pending-advance :
    (q : ToggleQueue)
    → IsWord q
    → q.tail ≢ q.head
    → (levels q).pending ≡ (levels (advance q)).level ∷ (levels (advance q)).pending
unfolding advance
pending-advance q w h =
    ap (alternate (odd q.tail)) (count-get q w h)
    ∙ ap (λ b. b ∷ alternate b (count (advance q))) (sym (odd_wrap q.tail))

pending-empty : (q : ToggleQueue) → IsWord q → q.tail ≡ q.head → (levels q).pending ≡ []
pending-empty q w h = let e : count q ≡ 0 = omega arith in ap (alternate (odd q.tail)) e

get-levels :
    (q : ToggleQueue)
    → IsWord q
    → let s = Spec.take_next (levels q).level (levels q).pending in
      (levels (get q).0 ≡ s.0) × ((get q).1 ≡ s.1)
unfolding get advance
get-levels q w = elim (ℕ_discrete q.tail q.head) [
  | yes e ↦ rw (pending-empty q w e) (ground arith)
  | no ne ↦ rw (pending-advance q w ne) (ground arith)
]

pub get_or_last-levels :
    (q : ToggleQueue)
    → IsWord q
    → let s = Spec.take_or_last (levels q).level (levels q).pending in
      (levels (get_or_last q).0 ≡ s.0) × (ok (get_or_last q).1 ≡ s.1)
unfolding get_or_last advance
get_or_last-levels q w = elim (ℕ_discrete q.tail q.head) [
  | yes e ↦ rw (pending-empty q w e) (ground arith)
  | no ne ↦ rw (pending-advance q w ne) (ground arith)
]

count-get_le : (q : ToggleQueue) → IsWord q → count (get q).0 ≤ count q
unfolding get
count-get_le q w = ground arith

count-get_or_last_le : (q : ToggleQueue) → IsWord q → count (get_or_last q).0 ≤ count q
unfolding get_or_last
count-get_or_last_le q w = ground arith

count-put_le :
    (q : ToggleQueue) (e : Bool) → IsWord q → count q + 1 < 2 ^ 32 → count (put q e).0 ≤ count q + 1
unfolding put
count-put_le q e w h = ground arith

step-IsWord : (q : ToggleQueue) (o : Op) → IsWord q → IsWord (step q o).0
unfolding step
step-IsWord q (put_op e) w = ground arith
step-IsWord q get_op w = ground arith
step-IsWord q get_or_last_op w = ground arith

count-step :
    (q : ToggleQueue) (o : Op) → IsWord q → count q + 1 < 2 ^ 32 → count (step q o).0 ≤ count q + 1
unfolding step
count-step q (put_op e) w h = count-put_le q e w h
count-step q get_op w h = omega (arith, count-get_le q w)
count-step q get_or_last_op w h = omega (arith, count-get_or_last_le q w)

-- One call: the new counters stand for the new queue, and the replies agree.
pub step-levels :
    (q : ToggleQueue) (o : Op)
    → IsWord q
    → count q + 1 < 2 ^ 32
    → (levels (step q o).0 ≡ (Spec.step (levels q) o).0)
      × ((step q o).1 ≡ (Spec.step (levels q) o).1)
unfolding step Spec.step
step-levels q (put_op e) w h = put-levels q e w h
step-levels q get_op w h = get-levels q w
step-levels q get_or_last_op w h = get_or_last-levels q w

-- Any sequence of calls answers as the queue of `Spec` does, whatever the two counters are and
-- however they wrap, as long as the events stored before and put in between number less than
-- 2 ^ 32 together.
pub run-levels :
    (q : ToggleQueue) (os : List Op)
    → IsWord q
    → count q + length os < 2 ^ 32
    → run q os ≡ Spec.run (levels q) os
unfolding run Spec.run
run-levels q [] w h = refl
run-levels q (o ∷ os) w h =
    let now = step-levels q o w (omega arith) in
    let later =
      run-levels (step q o).0 os (step-IsWord q o w)
        (omega (arith, count-step q o w (omega arith))) in
    ap₂ ◌∷◌ now.1 (later ∙ ap (λ s. Spec.run s os) now.0)

-- A queue that `toggle_queue_init` made stands for the given level and no pending event.
pub init-levels :
    (b : Bool) → (levels (init b) ≡ record { level = b; pending = [] }) × IsWord (init b)
unfolding init
init-levels true = (refl, omega arith)
init-levels false = (refl, omega arith)

pub get_or_last-IsWord : (q : ToggleQueue) → IsWord q → IsWord (get_or_last q).0
unfolding get_or_last
get_or_last-IsWord q w = ground arith
