-- ===== src/Debounce/Timing.antt =====
-- How long the interrupt of a pin stays off: exactly N ticks, whatever the other pins do.
use mymouse.Base.{
  ℕ, zero, suc, ◌+◌, ◌<◌, ◌≤◌, ◌≡◌, ◌≢◌, refl, ◌∙◌, Bool, true, List, [], ◌∷◌, Option, none, some,
  arith, ap, sym, inl, inr, Option-cases, AllOf,
}
use mymouse.Base.Bits.{
  test_bit, write_bit, test_bit-write_bit_self, test_bit-write_bit_ne, test_bit-zero,
}
use mathlib.Core.Path.{subst}
use native.Mathlib.Decide.{ℕ_discrete, dec_lt}
use native.Mathlib.Numerals.{add-one}
use mymouse.Bitmask.{Ffs}
use mymouse.Platform.Gpio.{set_edge_cb_mask}
use mymouse.Platform.Gpio.Laws.{set_edge_cb_mask-pin}
use mymouse.Debounce.{Debounce, debounce_gpio_cb, request, gpio_cb, timer_cb}
use mymouse.Debounce.Ring.{cell, cell-request_last, cell-request_ne, cell-timer_cb_down}
use mymouse.Debounce.Invariant.{Inv, request-Inv, timer_cb-Inv, with_gpio-Inv}

-- An edge interrupt of an armed pin, or an expiry of the timer with the levels of the port.
pub data Event : Type 0 where
  edge : ℕ → Bool → Event
  tick : ℕ → Event

abbrev pub ticks : List Event → ℕ
ticks [] = 0
ticks (edge pin level ∷ es) = ticks es
ticks (tick levels ∷ es) = suc (ticks es)

-- Edges come only from the pins that `uses` says are in use: those that were registered.
abbrev pub IsPin : (ℕ → Bool) → Event → Type 0
IsPin uses (edge pin level) = (pin < 32) × (uses pin ≡ true)
IsPin uses (tick levels) = Unit {0}

-- A request of `pin` waits in cell `k`.
abbrev pub Waits : {User : Type 0} → ℕ → ℕ → ℕ → Debounce User → Type 0
Waits n pin k d = (1 ≤ k) × (k ≤ n) × (test_bit (cell n d k) pin ≡ 1)

-- Every pin in use has a user's callback.
abbrev pub Registered : {User : Type 0} → (ℕ → Bool) → Debounce User → Type 0
Registered uses d = (pin : ℕ) → uses pin ≡ true → d.callbacks pin ≢ none

module _ {User : Type 0} (n : ℕ) (ffs : Ffs)
    (call : User → ℕ → Bool → Debounce User → Debounce User) where
  unfoldable pub step : Event → Debounce User → Option (Debounce User)
  step (edge pin level) d = gpio_cb n call pin level d
  step (tick levels) d = some (timer_cb n ffs levels d)

  abbrev pub next : List Event → Option (Debounce User) → Option (Debounce User)
  next es none = none
  next [] (some d) = some d
  next (e ∷ es) (some d) = next es (step e d)

  unfoldable pub run : List Event → Debounce User → Option (Debounce User)
  run es d = next es (some d)

-- What the theorems take of the users' callbacks: they may register callbacks and set edge
-- interrupts, and do not touch the shift array and the timer.
pub record IsQuiet {User : Type 0} (uses : ℕ → Bool)
    (call : User → ℕ → Bool → Debounce User → Debounce User) : Type 0 where
  pub same :
      (u : User) (pin : ℕ) (level : Bool) (d : Debounce User)
      → call u pin level d
        ≡ record d { gpio = (call u pin level d).gpio; callbacks = (call u pin level d).callbacks }
  pub registers :
      (u : User) (pin : ℕ) (level : Bool) (d : Debounce User)
      → Registered uses d
      → Registered uses (call u pin level d)

nonzero_of_bit : (m pin : ℕ) → test_bit m pin ≡ 1 → m ≢ 0
nonzero_of_bit zero pin b e = omega (arith, b, test_bit-zero pin)
nonzero_of_bit (suc m) pin b e = absurd (omega arith)

set_bit-write_bit : (m q pin : ℕ) → test_bit m pin ≡ 1 → test_bit (write_bit m q 1) pin ≡ 1
set_bit-write_bit m q pin b = elim (ℕ_discrete q pin) [
  | yes f ↦ rw f (test_bit-write_bit_self m pin 1)
  | no nf ↦ test_bit-write_bit_ne m q pin 1 nf ∙ b
]

module _ {User : Type 0} (uses : ℕ → Bool) (n : ℕ) (pos : 0 < n) where
  -- While a request waits the timer runs.
  running_of_Waits :
      (pin k : ℕ) (d : Debounce User) → Inv n d → Waits n pin k d → d.timer_running ≡ true
  running_of_Waits pin k d inv w = elim (dec_lt d.moves_left k) [
    | yes l ↦ absurd (nonzero_of_bit (cell n d k) pin w.2 (inv.rest_clear k l w.1))
    | no nl ↦ inv.timer.1 (omega (arith, w.0))
  ]

  -- Another request leaves it waiting where it is.
  Waits-request :
      (pin k q : ℕ) (d : Debounce User) → Inv n d → Waits n pin k d → Waits n pin k (request n q d)
  Waits-request pin k q d inv w = (
    w.0,
    w.1,
    elim (ℕ_discrete k n) [
      | yes e ↦
          rw (e, cell-request_last n d inv.ring q)
            (set_bit-write_bit (cell n d n) q pin (rw e at w.2))
      | no ne ↦ rw (cell-request_ne n d inv.ring q k w.1 ne) w.2
    ],
  )

  -- A request starts in the last cell.
  request-Waits : (pin : ℕ) (d : Debounce User) → Inv n d → Waits n pin n (request n pin d)
  request-Waits pin d inv =
      (pos, omega arith, rw (cell-request_last n d inv.ring pin) (test_bit-write_bit_self _ pin 1))

  module _ (ffs : Ffs) where
    -- A tick moves it one cell down.
    Waits-tick :
        (pin k levels : ℕ) (d : Debounce User)
        → Inv n d
        → 0 < k
        → Waits n pin (suc k) d
        → Waits n pin k (timer_cb n ffs levels d)
    Waits-tick pin k levels d inv p w = (
      p,
      omega (arith, w.1),
      rw (cell-timer_cb_down n d inv.ring ffs levels pos k p w.1 ∙ ap (cell n d) (add-one k)) w.2,
    )

    timer_cb-Registered :
        (levels : ℕ) (d : Debounce User)
        → Registered uses d
        → Registered uses (timer_cb n ffs levels d)
    unfolding timer_cb
    timer_cb-Registered levels d reg = reg

    gpio-tick :
        (pin levels : ℕ) (d : Debounce User)
        → Waits n pin 1 d
        → (timer_cb n ffs levels d).gpio
          ≡ set_edge_cb_mask ffs (cell n d 1) levels debounce_gpio_cb d.gpio
    unfolding timer_cb
    gpio-tick pin levels d w = ground (arith, nonzero_of_bit (cell n d 1) pin w.2)

    -- From cell 1 a tick re-enables the interrupt.
    tick-armed :
        (pin levels : ℕ) (d : Debounce User)
        → pin < 32
        → Inv n d
        → Waits n pin 1 d
        → let g = (timer_cb n ffs levels d).gpio in
          (test_bit g.int_enabled pin ≡ 1)
          × (test_bit g.from_level pin ≡ test_bit levels pin)
          × (g.callbacks pin ≡ some debounce_gpio_cb)
    tick-armed pin levels d h inv w =
        let armed =
          set_edge_cb_mask-pin ffs (cell n d 1) levels debounce_gpio_cb d.gpio (inv.words 1 w.1) pin
            h in
        rw (gpio-tick pin levels d w)
          (armed.0 ∙ rw w.2 refl, armed.1 ∙ rw w.2 refl, armed.2 ∙ rw w.2 refl)

    module _ (call : User → ℕ → Bool → Debounce User → Debounce User)
        (quiet : IsQuiet uses call) where
      -- An edge interrupt runs, and keeps the invariant and what waits.
      edge_lem :
          (q : ℕ) (level : Bool) (d : Debounce User)
          → q < 32
          → uses q ≡ true
          → Inv n d
          → Registered uses d
          → (d' : Debounce User) × (gpio_cb n call q level d ≡ some d')
            × Inv n d'
            × Registered uses d'
            × ((pin k : ℕ) → Waits n pin k d → Waits n pin k d')
            × Waits n q n d'
      edge_lem q level d h used inv reg = elim (Option-cases ((request n q d).callbacks q)) [
        | inl e ↦ absurd (reg q used (unfold request in e))
        | inr (u, e) ↦
            let r = request n q d in
            let same = sym (quiet.same u q level r) in
            (
              call u q level r,
              unfold gpio_cb in rw e refl,
              subst (Inv n) same (with_gpio-Inv n r _ _ (request-Inv n d pos inv q h)),
              quiet.registers u q level r (unfold request in reg),
              λ pin k w. subst (Waits n pin k) same (Waits-request pin k q d inv w),
              subst (Waits n q n) same (request-Waits q d inv),
            )
      ]

      -- Events other than the last tick bring a waiting request down to the cell that is left.
      Waits-next :
          (es : List Event) (pin j k : ℕ) (d : Debounce User)
          → AllOf (IsPin uses) es
          → Inv n d
          → Registered uses d
          → 0 < k
          → j ≡ ticks es + k
          → Waits n pin j d
          → (d' : Debounce User) × (next n ffs call es (some d) ≡ some d')
            × Inv n d'
            × Registered uses d'
            × Waits n pin k d'
      unfolding step
      Waits-next [] pin j k d h inv reg p e w =
          (d, refl, inv, reg, let e' : j ≡ k = omega arith in rw e' at w)
      Waits-next (edge q level ∷ es) pin j k d h inv reg p e w =
          let (d', runs, inv', reg', keeps, new) = edge_lem q level d h.0.0 h.0.1 inv reg in
          let (d'', runs', inv'', reg'', w') =
            Waits-next es pin j k d' h.1 inv' reg' p e (keeps pin j w) in
          (d'', (ap (next n ffs call es) runs ∙ runs'), inv'', reg'', w')
      Waits-next (tick levels ∷ es) pin j k d h inv reg p e w =
          let running = running_of_Waits pin j d inv w in
          let e' : j ≡ suc (ticks es + k) = omega arith in
          let (d'', runs', inv'', reg'', w') =
            Waits-next es pin (ticks es + k) k (timer_cb n ffs levels d) h.1
              (timer_cb-Inv n d pos inv ffs levels running) (timer_cb-Registered levels d reg) p
              refl (Waits-tick pin (ticks es + k) levels d inv (omega arith) (rw e' at w)) in
          (d'', runs', inv'', reg'', w')

      -- After an edge of a pin, and any events among which the timer expires N - 1 times, all goes
      -- without a fault and the timer still runs; and its next expiry, the N-th, re-enables the
      -- interrupt of the pin, from the level that is read then and with this service's callback.
      -- The service is in a state of its invariant, the edges come from pins in use, each of which
      -- has a user's callback, and the users' callbacks are quiet.
      pub rearmed :
          (q : ℕ) (level : Bool) (es : List Event) (levels : ℕ) (d : Debounce User)
          → q < 32
          → uses q ≡ true
          → AllOf (IsPin uses) es
          → ticks es + 1 ≡ n
          → Inv n d
          → Registered uses d
          → (d' : Debounce User) × (run n ffs call (edge q level ∷ es) d ≡ some d')
            × (d'.timer_running ≡ true)
            × (test_bit (timer_cb n ffs levels d').gpio.int_enabled q ≡ 1)
            × (test_bit (timer_cb n ffs levels d').gpio.from_level q ≡ test_bit levels q)
            × ((timer_cb n ffs levels d').gpio.callbacks q ≡ some debounce_gpio_cb)
      rearmed q level es levels d h used pins e inv reg =
          let (d₁, runs, inv₁, reg₁, keeps, new) = edge_lem q level d h used inv reg in
          let (d₂, runs', inv₂, reg₂, w) =
            Waits-next es q n 1 d₁ pins inv₁ reg₁ (omega arith) (omega arith) new in
          let armed = tick-armed q levels d₂ h inv₂ w in
          (
            d₂,
            unfold run step in (ap (next n ffs call es) runs ∙ runs'),
            running_of_Waits q 1 d₂ inv₂ w,
            armed.0,
            armed.1,
            armed.2,
          )
