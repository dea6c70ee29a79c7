-- ===== src/Boot/Cycle/Update.antt =====
-- How a host replaces a page of the application.
use mymouse.Base.{
  ℕ, ◌*◌, ◌/◌, ◌%◌, ◌<◌, ◌≡◌, refl, sym, true, false, List, [], ◌∷◌, ◌++◌, some, ◌==◌,
  if◌then◌else◌, length, get_or, AllOf,
}
use mymouse.Usb
use mymouse.Usb.Requests.{request}
use mymouse.Boot.{
  Flash, Bootloader, ControlRequest, control_request, set_report, application_jump_check,
}
use mymouse.Boot.Program.{IsFlash, IsWord, concat}
use mymouse.Boot.Request.{control_request-programmed}
use mymouse.Boot.Cycle.{
  Stage, application, programming, after_reset, serve, main_round, main_next, Step, served, rounded,
  Reaches, here, next, new_usb,
}
use mymouse.Boot.Cycle.Kept.{reaches-kept}

-- The output report with the id 8, and the programming requests.
abbrev enter_bootloader : Usb.ControlRequest
enter_bootloader = request Usb.set_report 8 2

abbrev to_bootloader : ControlRequest
to_bootloader = record { is_hid = true; is_set_report = true }

module _ (flash : Flash) (laws : IsFlash flash) (junk : ℕ) where
  open laws use {word}

  -- The bootloader after the reset that the request to enter it causes.
  abbrev new_bootloader : flash.State → Bootloader flash
  new_bootloader memory = record { run_bootloader = true; memory = memory; calls = [] }

  entered :
      (u : Usb.Usb) (memory : flash.State)
      → serve flash junk enter_bootloader 0x42 u 0 memory ≡ programming (new_bootloader memory) 0
  unfolding serve after_reset application_jump_check Usb.control_request Usb.handle_set_report
  entered u memory = refl

  -- The command that starts the application, and the reset after it.
  started :
      (b : Bootloader flash) (key : ℕ)
      → (b' : Bootloader flash) × (main_round flash junk
            (some (to_bootloader, (0xFFFF ∷ []) ∷ []))
            b
          ≡ some b')
        × (main_next flash junk b' key ≡ application new_usb 0 b.memory)
  unfolding main_round main_next after_reset application_jump_check control_request set_report
  started b key = (_, refl, refl)

  still_programming :
      (b : Bootloader flash) (key : ℕ)
      → b.run_bootloader ≡ true
      → main_next flash junk b key ≡ programming b key
  unfolding main_next
  still_programming b key e = rw e refl

  -- Wherever the application runs, since the power came on, a host can replace a page of it: it asks
  -- for the bootloader with the key 0x42, sends the page, and the command to start the application,
  -- which then runs. The page holds the words then, in order, and every other word of the memory is
  -- as it was. The page begins at its address below the bootloader, and comes in packets of any
  -- sizes but 0.
  pub reaches-programmed :
      (key : ℕ) (start : flash.State) (u : Usb.Usb) (key' : ℕ) (memory : flash.State) (address : ℕ)
      (packet : List ℕ) (packets : List (List ℕ)) (words extra : List ℕ)
      → Reaches flash junk (after_reset flash junk false key start) (application u key' memory)
      → packet ++ concat packets ≡ words ++ extra
      → length words ≡ 32
      → AllOf IsWord words
      → AllOf (λ p. 0 < length p) packets
      → address < 0x1800
      → address % 64 ≡ 0
      → (memory' : flash.State) × Reaches flash junk
          (application u key' memory)
          (application new_usb 0 memory')
        × ((i : ℕ)
            → word memory' (i * 2)
              ≡ (if i / 32 == address / 64 then get_or words (i % 32) 0 else word memory (i * 2)))
  unfolding main_round
  reaches-programmed key start u key' memory address packet packets words extra r e size small h
        below aligned =
      let s : Stage flash junk = application u key' memory in
      let wrong = (reaches-kept flash laws junk key start s r).0.0 in
      let (b, done, running, words_in) =
        control_request-programmed flash laws junk address packet packets (new_bootloader memory)
          words extra e size small h below aligned in
      let (b', told, runs) = started b 0 in
      let in_bootloader : Step flash junk s (programming (new_bootloader memory) 0) =
        served enter_bootloader 0x42 u key' memory refl (rw wrong (sym (entered u memory))) in
      let with_page : Step flash junk (programming (new_bootloader memory) 0) (programming b 0) =
        rounded (some (to_bootloader, (address ∷ packet) ∷ packets)) (new_bootloader memory) b 0
          refl done (sym (still_programming b 0 running)) in
      let restarted : Step flash junk (programming b 0) (application new_usb 0 b.memory) =
        rounded (some (to_bootloader, (0xFFFF ∷ []) ∷ [])) b b' 0 refl told (sym runs) in
      (b.memory, next _ _ (next _ _ (next _ _ here in_bootloader) with_page) restarted, words_in)
