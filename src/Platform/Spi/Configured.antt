-- ===== src/Platform/Spi/Configured.antt =====
-- The configuration of the hardware, which `spi_configure` does not repeat for a constant one.
use mymouse.Base.{
  ℕ, ◌≡◌, true, false, List, [], ◌∷◌, Option, none, some, arith, inl, inr, Option-cases, sym, ◌∙◌,
  ◌&&◌,
}
use mymouse.Platform.Spi.{
  Kernel, Spi, Config, Settings, TransferSpec, Caller, is_at, disable_sck, spi_lock, spi_unlock,
  spi_configure, spi_transceive,
}

-- The constant configurations of the program, by their addresses: such a configuration has the
-- contents that stand there. Any other one may change between two calls.
abbrev pub Fits : Option Settings → Config → Type 0
Fits none config = config.is_const ≡ false
Fits (some settings) config = config.settings ≡ settings

-- The configuration that was set last is what the hardware has.
abbrev pub Agrees : (ℕ → Option Settings) → Option Config → Settings → Type 0
Agrees rom none hardware = Unit {0}
Agrees rom (some config) hardware = Fits (rom config.address) config × (hardware ≡ config.settings)

-- The calls that reach the driver, from threads and from interrupts, and its delayed work.
pub data Call (Cb : Type 0) : Type 0 where
  lock_call : ℕ → ℕ → Call Cb
  unlock_call : ℕ → Call Cb
  configure_call : Caller → Config → Call Cb
  transceive_call : Caller → TransferSpec → Cb → Call Cb
  disable_sck_call : Call Cb

abbrev pub AllFit : {Cb : Type 0} → (ℕ → Option Settings) → List (Call Cb) → Type 0
AllFit rom [] = Unit {0}
AllFit rom (configure_call caller config ∷ calls) =
    Fits (rom config.address) config × AllFit rom calls
AllFit rom (lock_call t timeout ∷ calls) = AllFit rom calls
AllFit rom (unlock_call t ∷ calls) = AllFit rom calls
AllFit rom (transceive_call caller spec callback ∷ calls) = AllFit rom calls
AllFit rom (disable_sck_call ∷ calls) = AllFit rom calls

module _ (k : Kernel) (Cb : Type 0) (off on : ℕ) where
  abbrev pub run_call : Call Cb → Spi k Cb → Spi k Cb
  run_call (lock_call t timeout) s = (spi_lock k Cb off on t timeout s).0
  run_call (unlock_call t) s = (spi_unlock k Cb off on t s).0
  run_call (configure_call caller config) s = (spi_configure k Cb off on caller config s).0
  run_call (transceive_call caller spec callback) s = (spi_transceive k Cb caller spec callback s).0
  run_call disable_sck_call s = disable_sck k Cb s

  abbrev pub run_calls : List (Call Cb) → Spi k Cb → Spi k Cb
  run_calls [] s = s
  run_calls (c ∷ calls) s = run_calls calls (run_call c s)

  module _ (rom : ℕ → Option Settings) where
    same_settings :
        (prev : Option Config) (hardware : Settings) (config : Config)
        → Agrees rom prev hardware
        → Fits (rom config.address) config
        → (config.is_const && is_at config.address prev) ≡ true
        → hardware ≡ config.settings
    same_settings none hardware config h fits e = ground (arith, e)
    same_settings (some last) hardware config (last_fits, h) fits e =
        elim (Option-cases (rom config.address)) [
          | inl r ↦ ground (arith, fits, e, r)
          | inr (settings, r) ↦
              let at : last.address ≡ config.address = ground (arith, e) in
              let last_fits' : Fits (rom config.address) last = rw (sym at) last_fits in
              h ∙ rw r at last_fits' ∙ sym (rw r at fits)
        ]

    spi_configure-Agrees :
        (caller : Caller) (config : Config) (s : Spi k Cb)
        → Fits (rom config.address) config
        → Agrees rom s.prev_config s.hardware
        → Agrees rom
            (spi_configure k Cb off on caller config s).0.prev_config
            (spi_configure k Cb off on caller config s).0.hardware
    unfolding spi_configure
    spi_configure-Agrees caller config s fits h = ground (arith, fits, h)

    run_calls-Agrees :
        (calls : List (Call Cb)) (s : Spi k Cb)
        → AllFit rom calls
        → Agrees rom s.prev_config s.hardware
        → Agrees rom (run_calls calls s).prev_config (run_calls calls s).hardware
    unfolding spi_lock spi_unlock spi_transceive
    run_calls-Agrees [] s fit h = h
    run_calls-Agrees (lock_call t timeout ∷ calls) s fit h =
        run_calls-Agrees calls _ fit (ground (arith, h))
    run_calls-Agrees (unlock_call t ∷ calls) s fit h =
        run_calls-Agrees calls _ fit (ground (arith, h))
    run_calls-Agrees (configure_call caller config ∷ calls) s (fits, fit) h =
        run_calls-Agrees calls _ fit (spi_configure-Agrees caller config s fits h)
    run_calls-Agrees (transceive_call caller spec callback ∷ calls) s fit h =
        run_calls-Agrees calls _ fit (ground (arith, h))
    run_calls-Agrees (disable_sck_call ∷ calls) s fit h = run_calls-Agrees calls _ fit tt

    -- After any calls of the driver's functions, from threads and interrupts, and of its delayed
    -- work: when `spi_configure` returns 0, the hardware has the settings that were asked for, also
    -- where it is not configured again because the constant configuration is the same.
    pub spi_configure-settings :
        (calls : List (Call Cb)) (caller : Caller) (config : Config) (s : Spi k Cb)
        → s.prev_config ≡ none
        → AllFit rom calls
        → Fits (rom config.address) config
        → (spi_configure k Cb off on caller config (run_calls calls s)).1 ≡ none
        → (spi_configure k Cb off on caller config (run_calls calls s)).0.hardware ≡ config.settings
    unfolding spi_configure
    spi_configure-settings calls caller config s start fit fits done =
        let s' = run_calls calls s in
        ground (
          arith,
          done,
          same_settings s'.prev_config s'.hardware config
              (run_calls-Agrees calls s fit (rw start tt)) fits,
        )
