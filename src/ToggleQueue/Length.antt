-- ===== src/ToggleQueue/Length.antt =====
-- What `toggle_queue_len` returns.
use mymouse.Base.{◌^◌, ◌≤◌, ◌≡◌, ◌↔◌, refl, List, [], ◌∷◌, Bool, true, length, arith, ap}
use mymouse.Base.Int.{is_zero, pos, neg}
use mymouse.ToggleQueue.{ToggleQueue, len}
use mymouse.ToggleQueue.Refine.{IsWord, count, levels, length-alternate, odd}

-- `toggle_queue_len` returns the number of stored events with its sign reversed, if at most 2 ^ 31
-- events are stored. The counters are words.
len_negative :
    (q : ToggleQueue)
    → IsWord q
    → length (levels q).pending ≤ 2 ^ 31
    → len q ≡ neg (pos (length (levels q).pending))
unfolding len
len_negative q w = rw (length-alternate (odd q.tail) (count q)) (ground arith)

len_zero : (q : ToggleQueue) → IsWord q → (len q ≡ pos 0) ↔ (length (levels q).pending ≡ 0)
unfolding len
len_zero q w = rw (length-alternate (odd q.tail) (count q)) (ground arith)

length-zero : (es : List Bool) → length es ≡ 0 → es ≡ []
length-zero [] h = refl
length-zero (e ∷ es) h = absurd (omega arith)

-- The length is 0 exactly if no level is pending.
pub is_zero-len :
    (q : ToggleQueue) → IsWord q → (is_zero (len q) ≡ true) ↔ ((levels q).pending ≡ [])
is_zero-len q w = (
  λ h. length-zero _ ((len_zero q w).0 (ground arith)),
  λ h. rw ((len_zero q w).1 (ap length h)) refl,
)
