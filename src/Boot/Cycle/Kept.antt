-- ===== src/Boot/Cycle/Kept.antt =====
-- What holds over all resets.
use mymouse.Base.{
  ℕ, ◌≤◌, ◌≡◌, refl, ◌∙◌, Bool, true, false, Bool-cases, List, Option, inl, inr, some, none, arith,
  ◌==◌,
}
use mymouse.Usb
use mymouse.Boot.{Flash, Bootloader, ControlRequest, application_jump_check}
use mymouse.Boot.Program.{IsFlash}
use mymouse.Boot.Request.{control_request-boot_start_addr}
use mymouse.Boot.Cycle.{
  Stage, application, programming, memory_of, after_reset, serve, main_round, main_next, Step,
  served, hung, rounded, powered, Reaches, here, next,
}

module _ (flash : Flash) (laws : IsFlash flash) (junk : ℕ) where
  open laws use {word}

  -- While the application runs, the boot key is wrong.
  abbrev pub IsStage : Stage flash junk → Type 0
  IsStage (application u key memory) = (key ≡ 0) × (u.resetting ≡ false)
  IsStage (programming b key) = b.run_bootloader ≡ true

  abbrev Keeps : flash.State → Stage flash junk → Type 0
  Keeps memory s =
      IsStage s × ((a : ℕ) → 0x1800 ≤ a → word (memory_of flash junk s) a ≡ word memory a)

  after_reset-Keeps :
      (watchdog : Bool) (key : ℕ) (memory : flash.State)
      → Keeps memory (after_reset flash junk watchdog key memory)
  unfolding after_reset application_jump_check
  after_reset-Keeps false key memory = ((refl, refl), λ a h. refl)
  after_reset-Keeps true key memory = elim (Bool-cases (key == 0xDC42)) [
    | inl e ↦ rw e ((refl, refl), λ a h. refl)
    | inr e ↦ rw e (refl, λ a h. refl)
  ]

  serve-Keeps :
      (r : Usb.ControlRequest) (key_sent : ℕ) (u : Usb.Usb) (key : ℕ) (memory : flash.State)
      → key ≡ 0
      → Keeps memory (serve flash junk r key_sent u key memory)
  unfolding serve
  serve-Keeps r key_sent u key memory z =
      elim (Bool-cases (Usb.control_request r key_sent u).resetting) [
        | inl e ↦ rw e (after_reset-Keeps true key memory)
        | inr e ↦ rw e ((z, refl), λ a h. refl)
      ]

  main_round-word :
      (r : Option (ControlRequest × List (List ℕ))) (b b' : Bootloader flash) (a : ℕ)
      → main_round flash junk r b ≡ some b'
      → 0x1800 ≤ a
      → word b'.memory a ≡ word b.memory a
  unfolding main_round
  main_round-word none b b' a e p = ground (arith, e)
  main_round-word (some (r, packets)) b b' a e p =
      control_request-boot_start_addr flash laws junk r packets b b' a e p

  main_next-Keeps : (b : Bootloader flash) (key : ℕ) → Keeps b.memory (main_next flash junk b key)
  unfolding main_next
  main_next-Keeps b key = elim (Bool-cases b.run_bootloader) [
    | inl e ↦ rw e (refl, λ a h. refl)
    | inr e ↦ rw e (after_reset-Keeps true 0xDC42 b.memory)
  ]

  step-Keeps :
      (s t : Stage flash junk) → IsStage s → Step flash junk s t → Keeps (memory_of flash junk s) t
  step-Keeps s t h (served r key_sent u key memory e f) =
      let running : IsStage (application u key memory) = rw e at h in
      rw (e, f) (serve-Keeps r key_sent u key memory running.0)
  step-Keeps s t h (hung u key memory e f) = rw (e, f) (after_reset-Keeps true key memory)
  step-Keeps s t h (rounded r b b' key e done f) =
      let (i, w) = main_next-Keeps b' key in
      rw (e, f) (i, λ a p. w a p ∙ main_round-word r b b' a done p)
  step-Keeps s t h (powered key f) = rw f (after_reset-Keeps false key (memory_of flash junk s))

  -- Whatever the host requests and sends, and whenever the application hangs or the power fails,
  -- every word of the bootloader is as it was when the power came on. While the application runs,
  -- the boot key is wrong, so that the next reset by the watchdog leads to the bootloader; and the
  -- bootloader that runs has not been told to start the application.
  pub reaches-kept :
      (key : ℕ) (memory : flash.State) (t : Stage flash junk)
      → Reaches flash junk (after_reset flash junk false key memory) t
      → IsStage t × ((a : ℕ) → 0x1800 ≤ a → word (memory_of flash junk t) a ≡ word memory a)
  reaches-kept key memory t here = after_reset-Keeps false key memory
  reaches-kept key memory t (next s u r step) =
      let (i, w) = reaches-kept key memory s r in
      let (i', w') = step-Keeps s t i step in (i', λ a p. w' a p ∙ w a p)
