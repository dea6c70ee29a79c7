-- ===== src/Debounce/Invariant.antt =====
-- What holds of the debounce service between two events: requests wait only in the cells that the
-- timer still has to pass, and the timer runs exactly while there are any.
use mymouse.Base.{
  ℕ, zero, suc, ◌+◌, ◌-◌, ◌^◌, ◌<◌, ◌≤◌, ◌≡◌, ◌↔◌, refl, ◌∙◌, true, false, Option, none, arith,
  replicate, length-replicate, get_or,
}
use mymouse.Base.Bits.{write_bit-lt}
use mymouse.Bitmask.{Ffs}
use mymouse.Platform.Gpio.{Gpio}
use mymouse.Debounce.{Debounce, Callback, circular_index_to_phys, request, timer_cb}
use mymouse.Debounce.Ring.{
  IsRing, cell, request-IsRing, timer_cb-IsRing, cell-request, cell-timer_cb,
}

pub record Inv {User : Type 0} (n : ℕ) (d : Debounce User) : Type 0 where
  pub ring : IsRing n d
  pub moves : d.moves_left ≤ n
  pub words : (j : ℕ) → j ≤ n → cell n d j < 2 ^ 32
  pub head_clear : cell n d 0 ≡ 0
  pub rest_clear : (j : ℕ) → d.moves_left < j → j ≤ n → cell n d j ≡ 0
  pub timer : (d.timer_running ≡ true) ↔ (0 < d.moves_left)

module _ {User : Type 0} (n : ℕ) (d : Debounce User) (pos : 0 < n) (inv : Inv n d) where
  request_word : (pin j : ℕ) → pin < 32 → j ≤ n → cell n (request n pin d) j < 2 ^ 32
  request_word pin j h k = rw (cell-request n d inv.ring pin j k) (
      ground
        (arith, inv.words j k, write_bit-lt 32 (cell n d n) pin 1 (inv.words n (omega arith)) h))

  -- A request keeps the invariant.
  pub request-Inv : (pin : ℕ) → pin < 32 → Inv n (request n pin d)
  request-Inv pin h = record {
    ring = request-IsRing n d inv.ring pin;
    moves = unfold request in omega arith;
    words = λ j k. request_word pin j h k;
    head_clear = cell-request n d inv.ring pin 0 (omega arith) ∙ ground (arith, inv.head_clear);
    rest_clear = unfold request in (λ j l k. absurd (omega arith));
    timer = unfold request in ground (arith, inv.timer);
  }

  module _ (ffs : Ffs) (levels : ℕ) (running : d.timer_running ≡ true) where
    -- A tick of the running timer keeps the invariant.
    pub timer_cb-Inv : Inv n (timer_cb n ffs levels d)
    timer_cb-Inv = record {
      ring = timer_cb-IsRing n d inv.ring ffs levels pos;
      moves = unfold timer_cb in omega (arith, inv.moves);
      words = λ j k.
          rw (cell-timer_cb n d inv.ring ffs levels pos j k)
            (ground (arith, inv.words 0 (omega arith), inv.words (j + 1)));
      head_clear = cell-timer_cb n d inv.ring ffs levels pos 0 (omega arith);
      rest_clear = λ j l k.
          let l' : d.moves_left - 1 < j = unfold timer_cb in l in
          rw (cell-timer_cb n d inv.ring ffs levels pos j k)
            (ground (arith, inv.head_clear, inv.rest_clear (j + 1)));
      timer = unfold timer_cb in ground (arith, inv.timer, running);
    }

-- The invariant does not look at the GPIO driver and the callbacks.
pub with_gpio-Inv :
    {User : Type 0} (n : ℕ) (d : Debounce User) (g : Gpio Callback) (f : ℕ → Option User)
    → Inv n d
    → Inv n (record d { gpio = g; callbacks = f })
with_gpio-Inv n d g f inv = record {
  ring = inv.ring;
  moves = inv.moves;
  words = inv.words;
  head_clear = inv.head_clear;
  rest_clear = inv.rest_clear;
  timer = inv.timer;
}

-- The service as it starts: `static` data is zero, and `g` is the GPIO driver.
abbrev pub initial : {User : Type 0} → ℕ → Gpio Callback → Debounce User
initial n g = record {
  shiftarr = replicate (n + 1) 0;
  cell0_index = 0;
  moves_left = 0;
  callbacks = λ pin. none;
  timer_running = false;
  gpio = g;
}

get_or-replicate : (n i : ℕ) → get_or {A = ℕ} (replicate n 0) i 0 ≡ 0
get_or-replicate zero i = refl
get_or-replicate (suc n) zero = refl
get_or-replicate (suc n) (suc i) = get_or-replicate n i

pub initial-Inv : {User : Type 0} (n : ℕ) (g : Gpio Callback) → Inv n (initial {User = User} n g)
initial-Inv {User} n g = record {
  ring = (length-replicate (n + 1) 0, omega arith);
  moves = omega arith;
  words = λ j k. rw (get_or-replicate (n + 1) (circular_index_to_phys n 0 j)) (omega arith);
  head_clear = get_or-replicate (n + 1) (circular_index_to_phys n 0 0);
  rest_clear = λ j l k. get_or-replicate (n + 1) (circular_index_to_phys n 0 j);
  timer = (λ h. cc, λ h. absurd (omega arith));
}
