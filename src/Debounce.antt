-- ===== src/Debounce.antt =====
-- app-nrf/src/services/debounce.c. `num_shifts` is CONFIG_APP_DEBOUNCE_NUM_SHIFTS, the N of the
-- file's comment. Of the kernel's periodic timer the state keeps whether it runs; an expiry is the
-- event `tick`. The user's callbacks are code of other parts: they are values of `User`, and
-- `call` says what they do to the state. `none` is a call through NULL.
pub mod Ring
pub mod Invariant
pub mod Timing
mod Tests
use mymouse.Base.{
  ℕ, zero, suc, ◌+◌, ◌-◌, Bool, true, false, Option, none, some, List, [], ◌∷◌, leb, ◌==◌,
  if◌then◌else◌, get_or, set,
}
use mymouse.Base.Bits.{write_bit}
use mymouse.Bitmask.{Ffs}
use mymouse.Platform.Gpio
use mymouse.Platform.Gpio.{Gpio, update}

-- The edge callbacks that the GPIO driver can hold: this service's, or another one.
pub data Callback : Type 0 where
  debounce_gpio_cb : Callback
  other : ℕ → Callback

pub record Debounce (User : Type 0) : Type 0 where
  pub shiftarr : List ℕ
  pub cell0_index : ℕ
  pub moves_left : ℕ
  pub callbacks : ℕ → Option User
  pub timer_running : Bool
  pub gpio : Gpio Callback

module _ (num_shifts : ℕ) where
  abbrev pub shiftarr_size : ℕ
  shiftarr_size = num_shifts + 1

  -- From the index that counts from cell 0.
  abbrev pub circular_index_to_phys : ℕ → ℕ → ℕ
  circular_index_to_phys cell0 index =
      if leb shiftarr_size (index + cell0) then index + cell0 - shiftarr_size else index + cell0

  -- The loop of `debounce_unset_edge_cb` from index `i` on, with `left` rounds to go.
  unfoldable pub clear_requests : ℕ → ℕ → ℕ → ℕ → List ℕ → List ℕ
  clear_requests pin cell0 i zero arr = arr
  clear_requests pin cell0 i (suc left) arr =
      let k = circular_index_to_phys cell0 i in
      clear_requests pin cell0 (i + 1) left (set arr k (write_bit (get_or arr k 0) pin 0))

  module _ {User : Type 0} where
    -- `debounce_gpio_cb` up to the user's function.
    unfoldable pub request : ℕ → Debounce User → Debounce User
    request pin d =
        let last = circular_index_to_phys d.cell0_index num_shifts in
        record d {
          shiftarr = set d.shiftarr last (write_bit (get_or d.shiftarr last 0) pin 1);
          moves_left = num_shifts;
          timer_running = if d.timer_running then d.timer_running else true;
        }

  module _ {User : Type 0} (call : User → ℕ → Bool → Debounce User → Debounce User) where
    abbrev pub run_user : Option User → ℕ → Bool → Debounce User → Option (Debounce User)
    run_user none pin level d = none
    run_user (some user) pin level d = some (call user pin level d)

    unfoldable pub gpio_cb : ℕ → Bool → Debounce User → Option (Debounce User)
    gpio_cb pin new_level d = run_user ((request pin d).callbacks pin) pin new_level (request pin d)

  module _ (ffs : Ffs) {User : Type 0} where
    -- `levels` is what `nrf_gpio_port_in_read` gives. The timer runs only while `moves_left` is
    -- positive (`Invariant`), so the decrement does not pass 0.
    unfoldable pub timer_cb : ℕ → Debounce User → Debounce User
    timer_cb levels d =
        let head = circular_index_to_phys d.cell0_index 1 in
        let mask = get_or d.shiftarr head 0 in
        record d {
          cell0_index = head;
          gpio =
              if mask == 0
              then d.gpio
              else Gpio.set_edge_cb_mask ffs mask levels debounce_gpio_cb d.gpio;
          shiftarr = if mask == 0 then d.shiftarr else set d.shiftarr head 0;
          moves_left = d.moves_left - 1;
          timer_running = if d.moves_left == 1 then false else d.timer_running;
        }

    -- `level` is what `nrf_gpio_pin_read` gives.
    unfoldable pub set_edge_cb : ℕ → User → Bool → Debounce User → Debounce User
    set_edge_cb pin callback level d = record d {
      callbacks = update d.callbacks pin (some callback);
      gpio = Gpio.set_edge_cb ffs pin level debounce_gpio_cb d.gpio;
    }

    unfoldable pub unset_edge_cb : ℕ → Debounce User → Debounce User
    unset_edge_cb pin d = record d {
      gpio = Gpio.unset_edge_cb ffs pin d.gpio;
      shiftarr = clear_requests pin d.cell0_index 1 d.moves_left d.shiftarr;
    }
