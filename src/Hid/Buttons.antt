-- ===== src/Hid/Buttons.antt =====
-- app-nrf/src/services/hid/source/buttons.c. The three pins come from the device tree and are
-- parameters; `none` is the dereference of the NULL that `queue_for_pin` gives for another pin.
pub mod Index
pub mod Laws
use mathlib.Core.Option
use mymouse.Base.{
  ℕ, zero, suc, ◌+◌, ◌-◌, Bool, true, false, not, ◌&&◌, ◌||◌, List, [], ◌∷◌, Option, none, some,
  ltb, leb, ◌==◌, if◌then◌else◌, length, get_elem?, set, Ret, ok, err, map,
}
use mymouse.Base.Int.{is_zero}
use mymouse.ToggleQueue
use mymouse.ToggleQueue.{ToggleQueue}
use mymouse.Hid.Report.{Report}

-- The search for the least and the greatest pin.
abbrev pub min_pin : ℕ → List ℕ → ℕ
min_pin m [] = m
min_pin m (p ∷ ps) = min_pin (if ltb p m then p else m) ps

abbrev pub max_pin : ℕ → List ℕ → ℕ
max_pin m [] = m
max_pin m (p ∷ ps) = max_pin (if ltb m p then p else m) ps

abbrev pub search_pin : ℕ → ℕ → List ℕ → Option ℕ
search_pin i pin [] = none
search_pin i pin (p ∷ ps) = if pin == p then some i else search_pin (suc i) pin ps

infixl 5 ◌>>=◌
abbrev pub ◌>>=◌ {ℓ κ} : {A : Type ℓ} {B : Type κ} → Option A → (A → Option B) → Option B
none >>= f = none
some a >>= f = f a

abbrev pub any_pending : List ToggleQueue → Bool
any_pending [] = false
any_pending (q ∷ qs) = not (is_zero (ToggleQueue.len q)) || any_pending qs

abbrev pub succeeded : Ret → Bool
succeeded (ok _) = true
succeeded (err _) = false

module _ (left right middle : ℕ) where
  abbrev pub button_pins : List ℕ
  button_pins = left ∷ right ∷ middle ∷ []

  -- The index in `queues`, which may differ from that in `button_pins`.
  unfoldable pub queue_for_pin : ℕ → Option ℕ
  queue_for_pin pin =
      let least = min_pin left (right ∷ middle ∷ []) in
      let greatest = max_pin left (right ∷ middle ∷ []) in
      if greatest - least == length button_pins - 1
      then (if leb least pin && leb pin greatest then some (pin - least) else none)
      else search_pin 0 pin button_pins

  -- toggle_queue_get_or_last on the queue of a pin.
  unfoldable pub take_level : ℕ → List ToggleQueue → Option (List ToggleQueue × ℕ)
  take_level pin queues = do
    i ← queue_for_pin pin
    q ← get_elem? queues i
    let (q', b) = ToggleQueue.get_or_last q
    some (set queues i q', b)

  -- The flag says that the collector is notified.
  unfoldable pub report_filler :
      List ToggleQueue → Report → Option (List ToggleQueue × Report × Bool)
  report_filler queues report = do
    (queues₁, l) ← take_level left queues
    (queues₂, r) ← take_level right queues₁
    (queues₃, m) ← take_level middle queues₂
    some (queues₃, record report { left = l; right = r; middle = m }, any_pending queues₃)

  -- The buttons are active low, hence the inverted level. A level that repeats is dropped.
  unfoldable pub interrupt_cb : ℕ → Bool → List ToggleQueue → Option (List ToggleQueue × Bool)
  interrupt_cb pin new_level queues = do
    i ← queue_for_pin pin
    q ← get_elem? queues i
    let (q', ret) = ToggleQueue.put q (not new_level)
    some (set queues i q', succeeded ret)

  -- The loop of `hid_src_buttons_init` over the queues; `read` is the level of a pin. The edge
  -- callback that it also registers is that of `Debounce`.
  abbrev pub init_queues : (ℕ → Bool) → List ℕ → List ToggleQueue → Option (List ToggleQueue)
  init_queues read [] queues = some queues
  init_queues read (p ∷ ps) queues =
      queue_for_pin p >>= λ i. init_queues read ps (set queues i (ToggleQueue.init (not (read p))))

  unfoldable pub init : (ℕ → Bool) → List ToggleQueue → Option (List ToggleQueue)
  init read queues = init_queues read button_pins queues
