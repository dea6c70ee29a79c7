-- ===== src/Sensor/Motion/Apart.antt =====
-- What a round of the interrupt handler does to the motion pin, and what other code leaves to it.
use mymouse.Base.{
  ℕ, ◌^◌, ◌<◌, ◌≡◌, ◌≢◌, refl, inl, inr, Bool, true, false, Option, none, some, ◌==◌, if◌then◌else◌,
  arith, ltb, ◌∙◌, Option-cases,
}
use mymouse.Base.Int.{pos}
use mymouse.Base.Bits.{test_bit, test_bit-lt, test_bit-bit_or, test_bit-pow}
use mymouse.Bitmask.{Ffs, bit_as_bool}
use mymouse.Hid.Collector.{KEvent, notify_data_available}
use mymouse.Platform.Gpio.{sense_low, sense_high, handle, disarm}
use mymouse.Platform.Gpio.Single.{set_edge_cb-pin}
use mymouse.Sensor.Motion.{
  GpioCb, hid_src_opt_sensor_gpio_cb, other_cb, Motion, with_gpio, notify, gpio_cb, call,
}

module _ (kernel : KEvent) (ffs : Ffs) (source mot_pin : ℕ) (valid : source < 31)
    (fits : mot_pin < 32) where
  open kernel use {bits, set_masked, bits-post, bits-set_masked}

  abbrev pub pending : Motion kernel → ℕ
  pending m = test_bit (bits m.collector.event) source

  abbrev pub armed_level : Motion kernel → ℕ
  armed_level m = test_bit m.gpio.from_level mot_pin

  -- Code that leaves the registers of the motion pin as they are, and does not take the event.
  pub record IsApart (m m' : Motion kernel) : Type 0 where
    pub enabled_kept : test_bit m'.gpio.int_enabled mot_pin ≡ test_bit m.gpio.int_enabled mot_pin
    pub level_kept : armed_level m' ≡ armed_level m
    pub callback_kept : m'.gpio.callbacks mot_pin ≡ m.gpio.callbacks mot_pin
    pub sense_kept : m'.gpio.sense mot_pin ≡ m.gpio.sense mot_pin
    pub pending_kept : pending m ≡ 1 → pending m' ≡ 1

  -- The interrupt of the motion pin is on, with this source's callback, and senses the other level.
  pub record IsArmed (m : Motion kernel) : Type 0 where
    pub enabled : test_bit m.gpio.int_enabled mot_pin ≡ 1
    pub callback : m.gpio.callbacks mot_pin ≡ some hid_src_opt_sensor_gpio_cb
    pub sense : m.gpio.sense mot_pin ≡ (if armed_level m == 1 then sense_low else sense_high)

  pub IsApart-IsArmed : (m m' : Motion kernel) → IsApart m m' → IsArmed m → IsArmed m'
  IsApart-IsArmed m m' a h = record {
    enabled = omega (arith, a.enabled_kept, h.enabled);
    callback = a.callback_kept ∙ h.callback;
    sense = a.sense_kept ∙ h.sense ∙ rw a.level_kept refl;
  }

  pub pending-notify : (m : Motion kernel) → pending (notify kernel ffs (pos source) m) ≡ 1
  unfolding notify_data_available
  pending-notify m =
      let v : ltb source 31 ≡ true = ground arith in
      rw v (
        rw
          (
            bits-post m.collector.event (2 ^ source),
            test_bit-bit_or (bits m.collector.event) (2 ^ source) source,
            test_bit-pow source source,
          )
          (ground (arith, test_bit-lt (bits m.collector.event) source)))

  pub pending-notify_kept :
      (m : Motion kernel) → pending m ≡ 1 → pending (notify kernel ffs (pos source) m) ≡ 1
  pending-notify_kept m h = pending-notify m

  pub gpio_cb-own :
      (level : Bool) (m : Motion kernel)
      → let m' = gpio_cb kernel ffs (pos source) mot_pin level m in
        IsArmed m' × (armed_level m' ≡ (if level then 1 else 0)) × (level ≡ false → pending m' ≡ 1)
  unfolding gpio_cb
  gpio_cb-own true m =
      let own =
        set_edge_cb-pin ffs mot_pin true hid_src_opt_sensor_gpio_cb m.gpio fits mot_pin fits in
      (
        record {
          enabled = ground (arith, own.0);
          callback = ground (arith, own.2);
          sense = ground (arith, own.1, own.3);
        },
        ground (arith, own.1),
        λ h. cc,
      )
  gpio_cb-own false m =
      let own =
        set_edge_cb-pin ffs mot_pin false hid_src_opt_sensor_gpio_cb m.gpio fits mot_pin fits in
      (
        record {
          enabled = ground (arith, own.0);
          callback = ground (arith, own.2);
          sense = ground (arith, own.1, own.3);
        },
        ground (arith, own.1),
        λ h. pending-notify m,
      )

  gpio_cb-IsApart :
      (pin : ℕ) (level : Bool) (m : Motion kernel)
      → pin < 32
      → pin ≢ mot_pin
      → IsApart m (gpio_cb kernel ffs (pos source) pin level m)
  unfolding gpio_cb
  gpio_cb-IsApart pin true m h ne =
      let own = set_edge_cb-pin ffs pin true hid_src_opt_sensor_gpio_cb m.gpio h mot_pin fits in
      record {
        enabled_kept = ground (arith, own.0);
        level_kept = ground (arith, own.1);
        callback_kept = ground (arith, own.2);
        sense_kept = ground (arith, own.3);
        pending_kept = λ k. k;
      }
  gpio_cb-IsApart pin false m h ne =
      let own = set_edge_cb-pin ffs pin false hid_src_opt_sensor_gpio_cb m.gpio h mot_pin fits in
      record {
        enabled_kept = ground (arith, own.0);
        level_kept = ground (arith, own.1);
        callback_kept = ground (arith, own.2);
        sense_kept = ground (arith, own.3);
        pending_kept = pending-notify_kept m;
      }

  pub IsApart-trans : (a b c : Motion kernel) → IsApart a b → IsApart b c → IsApart a c
  IsApart-trans a b c h k = record {
    enabled_kept = k.enabled_kept ∙ h.enabled_kept;
    level_kept = k.level_kept ∙ h.level_kept;
    callback_kept = k.callback_kept ∙ h.callback_kept;
    sense_kept = k.sense_kept ∙ h.sense_kept;
    pending_kept = λ e. k.pending_kept (h.pending_kept e);
  }

  -- `P` of a state that the handler has reached.
  abbrev pub Holds : (Motion kernel → Type 0) → Option (Motion kernel) → Type 0
  Holds P none = Unit
  Holds P (some m) = P m

  -- After the round of the motion pin its level is that of the port, and a low level is pending.
  pub record IsHandled (level : Bool) (m : Motion kernel) : Type 0 where
    pub armed : IsArmed m
    pub seen : armed_level m ≡ (if level then 1 else 0)
    pub notified : level ≡ false → pending m ≡ 1

  pub IsApart-IsHandled :
      (level : Bool) (m m' : Motion kernel) → IsApart m m' → IsHandled level m → IsHandled level m'
  IsApart-IsHandled level m m' a h = record {
    armed = IsApart-IsArmed m m' a h.armed;
    seen = a.level_kept ∙ h.seen;
    notified = λ e. a.pending_kept (h.notified e);
  }

  module _ (others : ℕ → ℕ → Bool → Motion kernel → Motion kernel)
      (apart : (i p : ℕ) (v : Bool) (m : Motion kernel) → IsApart m (others i p v m))
      (levels : ℕ) where
    abbrev pub round : ℕ → Option (Motion kernel) → Option (Motion kernel)
    round = handle (λ m. m.gpio) (with_gpio kernel) (call kernel ffs (pos source) others) levels

    call-IsApart :
        (cb : GpioCb) (pin : ℕ) (v : Bool) (m : Motion kernel)
        → pin < 32
        → pin ≢ mot_pin
        → IsApart m (call kernel ffs (pos source) others cb pin v m)
    call-IsApart hid_src_opt_sensor_gpio_cb pin v m h ne = gpio_cb-IsApart pin v m h ne
    call-IsApart (other_cb i) pin v m h ne = apart i pin v m

    disarm-IsApart :
        (pin : ℕ) (m : Motion kernel)
        → pin ≢ mot_pin
        → IsApart m (with_gpio kernel m (disarm pin m.gpio))
    disarm-IsApart pin m ne = record {
      enabled_kept = refl;
      level_kept = refl;
      callback_kept = refl;
      sense_kept = ground arith;
      pending_kept = λ k. k;
    }

    pub round-apart :
        (P : Motion kernel → Type 0)
        → ((m m' : Motion kernel) → IsApart m m' → P m → P m')
        → (pin : ℕ) (o : Option (Motion kernel)) → pin < 32
        → pin ≢ mot_pin
        → Holds P o
        → Holds P (round pin o)
    round-apart P keep pin none h ne x = tt
    round-apart P keep pin (some m) h ne x = elim (Option-cases (m.gpio.callbacks pin)) [
      | inl e ↦ rw e tt
      | inr (cb, e) ↦
          let m' = with_gpio kernel m (disarm pin m.gpio) in
          rw e (
            keep m _
              (IsApart-trans m m' _ (disarm-IsApart pin m ne)
                (call-IsApart cb pin (bit_as_bool levels pin) m' h ne))
              x)
    ]

    pub round-own :
        (o : Option (Motion kernel))
        → Holds (λ m. m.gpio.callbacks mot_pin ≡ some hid_src_opt_sensor_gpio_cb) o
        → Holds (IsHandled (bit_as_bool levels mot_pin)) (round mot_pin o)
    round-own none x = tt
    round-own (some m) x =
        let own =
          gpio_cb-own (bit_as_bool levels mot_pin) (with_gpio kernel m (disarm mot_pin m.gpio)) in
        rw x (record { armed = own.0; seen = own.1; notified = own.2 })
