-- ===== src/Platform/Gpio/Single.antt =====
-- The edge interrupt of one pin.
use native.Mathlib.Nat.{pow-suc, one-le-pow}
use mymouse.Base.{ℕ, zero, suc, ◌^◌, ◌<◌, ◌≡◌, Bool, some, arith, if◌then◌else◌, ◌==◌}
use mymouse.Base.Bits.{test_bit, test_bit-pow, test_bit-zero}
use mymouse.Bitmask.{Ffs}
use mymouse.Platform.Gpio.{Gpio, sense_low, sense_high, set_edge_cb}
use mymouse.Platform.Gpio.Laws.{set_edge_cb_mask-pin}

pub pow_fits : (w p : ℕ) → p < w → 2 ^ p < 2 ^ w
pow_fits zero p h = absurd (omega arith)
pow_fits (suc w) zero h = omega (arith, pow-suc 2 w, one-le-pow w 2)
pow_fits (suc w) (suc p) h = omega (arith, pow-suc 2 w, pow-suc 2 p, pow_fits w p (omega arith))

module _ (ffs : Ffs) {Cb : Type 0} (pin : ℕ) (level : Bool) (callback : Cb) (g : Gpio Cb)
    (fits : pin < 32) where
  -- `gpio_set_edge_cb` arms its pin from the level, and leaves the others.
  pub set_edge_cb-pin :
      (q : ℕ)
      → q < 32
      → let g' = set_edge_cb ffs pin level callback g in
        (test_bit g'.int_enabled q ≡ (if q == pin then 1 else test_bit g.int_enabled q))
        × (test_bit g'.from_level q
            ≡ (if q == pin then (if level then 1 else 0) else test_bit g.from_level q))
        × (g'.callbacks q ≡ (if q == pin then some callback else g.callbacks q))
        × (g'.sense q ≡ (if q == pin then (if level then sense_low else sense_high) else g.sense q))
  unfolding set_edge_cb
  set_edge_cb-pin q h =
      let l : ℕ = if level then 2 ^ pin else 0 in
      let armed = set_edge_cb_mask-pin ffs (2 ^ pin) l callback g (pow_fits 32 pin fits) q h in
      let bit = test_bit-pow pin q in
      let none_set = test_bit-zero q in
      (
        ground (arith, armed.0, bit),
        ground (arith, armed.1, bit, none_set),
        ground (arith, armed.2, bit),
        ground (arith, armed.3, bit, none_set),
      )
