-- ===== src/Debounce/Tests.antt =====
-- The theorems on the debounce service at concrete inputs: three ticks, and two pins registered.
use mymouse.Base.{
  ℕ, ◌+◌, ◌≡◌, refl, Bool, true, false, List, [], ◌∷◌, none, some, ◌==◌, ◌||◌, arith,
}
use mymouse.Base.Bits.{test_bit}
use mymouse.Bitmask.Lowest.{lowest_bit}
use mymouse.Platform.Gpio.{Gpio, no_sense, update}
use mymouse.Debounce.{Debounce, Callback, debounce_gpio_cb, request, timer_cb, set_edge_cb}
use mymouse.Debounce.Invariant.{Inv, initial, initial-Inv, with_gpio-Inv}
use mymouse.Debounce.Timing.{Event, edge, tick, IsQuiet, Registered, run, rearmed}

abbrev idle_gpio : Gpio Callback
idle_gpio = record {
  int_enabled = 0;
  from_level = 0;
  callbacks = λ pin. none;
  sense = λ pin. no_sense;
}

-- The pins that are registered.
abbrev uses : ℕ → Bool
uses pin = (pin == 5) || (pin == 7)

-- The service after the users' two calls, when the pins were low.
abbrev started : Debounce ℕ
started =
    set_edge_cb 3 lowest_bit 7 70 false (set_edge_cb 3 lowest_bit 5 50 false (initial 3 idle_gpio))

started-Inv : Inv 3 started
unfolding set_edge_cb
started-Inv = with_gpio-Inv 3 (initial 3 idle_gpio) _ _ (initial-Inv 3 idle_gpio)

started-Registered : Registered uses started
unfolding set_edge_cb
started-Registered pin h e = absurd (ground (arith, h, e))

-- A user that registers another callback for the pin after each edge.
abbrev count_edges : ℕ → ℕ → Bool → Debounce ℕ → Debounce ℕ
count_edges user pin level d = record d { callbacks = update d.callbacks pin (some (user + 1)) }

count_edges-IsQuiet : IsQuiet uses count_edges
count_edges-IsQuiet = record {
  same = λ u pin level d. refl;
  registers = λ u pin level d reg p h e. absurd (ground (arith, reg p h, e));
}

pressed : (request 3 5 started).timer_running ≡ true
unfolding request set_edge_cb
pressed = refl

-- Pin 5, and after one tick pin 7.
abbrev edges : List Event
edges = tick 0xA0 ∷ edge 7 true ∷ tick 0x20 ∷ []

rearmed_example :
    (d' : Debounce ℕ) × (run 3 lowest_bit count_edges (edge 5 false ∷ edges) started ≡ some d')
    × (d'.timer_running ≡ true)
    × (test_bit (timer_cb 3 lowest_bit 0x20 d').gpio.int_enabled 5 ≡ 1)
    × (test_bit (timer_cb 3 lowest_bit 0x20 d').gpio.from_level 5 ≡ test_bit 0x20 5)
    × ((timer_cb 3 lowest_bit 0x20 d').gpio.callbacks 5 ≡ some debounce_gpio_cb)
rearmed_example =
    rearmed uses 3 (omega arith) lowest_bit count_edges count_edges-IsQuiet 5 false edges 0x20
      started (omega arith) refl (omega arith, ((omega arith, refl), (omega arith, tt))) refl
      started-Inv started-Registered
