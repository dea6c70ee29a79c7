-- ===== src/Boot/Request.antt =====
-- The requests of the host, from the packets to the flash memory.
use Prim.Native.Nat.{bit_and}
use mymouse.Base.{
  ℕ, zero, suc, ◌+◌, ◌*◌, ◌/◌, ◌%◌, ◌^◌, ◌≤◌, ◌<◌, ◌≡◌, ◌∙◌, ap, true, false, List, [], ◌∷◌, ◌++◌,
  some, Option-cases, ◌==◌, if◌then◌else◌, length, get_or, AllOf, arith, inl, inr,
}
use mymouse.Base.Bits.Masks.{bit_and-ones}
use mymouse.Boot.{
  Flash, Bootloader, ControlRequest, call, clear_out, clear_setup, clear_status_stage, read_16,
  fill_page, program_page, set_report, control_request,
}
use mymouse.Boot.Program.{
  IsFlash, IsWord, concat, fill_page-fill_words, programmed, programmed-word,
}

aligned-mod : (address : ℕ) → bit_and address 63 ≡ address % 64
aligned-mod address =
    let e : address / 64 * 2 ^ 6 + address % 64 ≡ address = omega arith in
    rw e at (bit_and-ones 6 (address / 64) (address % 64) (omega arith))

module _ (f : Flash) (laws : IsFlash f) (junk : ℕ) where
  open laws use {word, buffer, erase_word, fill_word, fill_buffer, write_word, rww_word}

  program_page-programmed :
      (address : ℕ) (packet : List ℕ) (packets : List (List ℕ)) (b : Bootloader f)
      (words extra : List ℕ)
      → packet ++ concat packets ≡ words ++ extra
      → length words ≡ 32
      → AllOf (λ p. 0 < length p) packets
      → (b' : Bootloader f) × (program_page f junk address packet packets b ≡ some b')
        × (b'.memory ≡ programmed f laws address words b.memory)
        × (b'.run_bootloader ≡ b.run_bootloader)
  unfolding program_page
  program_page-programmed address packet packets b words extra e size h =
      let erased : Bootloader f = record b { memory = f.page_erase address b.memory } in
      let (b1, done, filled, running) =
        fill_page-fill_words f junk 32 0 address packet packets erased words extra e size h in
      (
        record b1 { memory = f.rww_enable (f.page_write address b1.memory) },
        ground (arith, done),
        ap (λ s. f.rww_enable (f.page_write address s)) filled,
        running,
      )

  -- Where the host sends the address of a page below the bootloader, which begins a page, and then
  -- at least the 32 words of the page, in packets of any sizes but 0, the request returns. The page
  -- holds the words then, in order, every other word of the memory is as it was, and the bootloader
  -- runs on.
  pub control_request-programmed :
      (address : ℕ) (packet : List ℕ) (packets : List (List ℕ)) (b : Bootloader f)
      (words extra : List ℕ)
      → packet ++ concat packets ≡ words ++ extra
      → length words ≡ 32
      → AllOf IsWord words
      → AllOf (λ p. 0 < length p) packets
      → address < 0x1800
      → address % 64 ≡ 0
      → (b' : Bootloader f) × (control_request f junk
            (record { is_hid = true; is_set_report = true })
            ((address ∷ packet) ∷ packets)
            b
          ≡ some b')
        × (b'.run_bootloader ≡ b.run_bootloader)
        × ((i : ℕ)
            → word b'.memory (i * 2)
              ≡ (if i / 32 == address / 64 then get_or words (i % 32) 0 else word b.memory (i * 2)))
  unfolding control_request set_report
  control_request-programmed address packet packets b words extra e size small h below aligned =
      let (b1, done, filled, running) =
        program_page-programmed address packet packets (call f clear_setup b) words extra e size
          h in
      (
        call f clear_status_stage (call f clear_out b1),
        ground (arith, done, below, aligned, aligned-mod address),
        running,
        λ i.
            ap (λ s. word s (i * 2)) filled
            ∙ programmed-word f laws address words b.memory i aligned size small,
      )

  fill_page-word :
      (n i address : ℕ) (packet : List ℕ) (packets : List (List ℕ)) (b b' : Bootloader f) (a : ℕ)
      → fill_page f junk n i address packet packets b ≡ some b'
      → word b'.memory a ≡ word b.memory a
  unfolding fill_page
  fill_page-word zero i address packet packets b b' a e = ground (arith, e)
  fill_page-word (suc n) i address [] [] b b' a e = ground (arith, e)
  fill_page-word (suc n) i address [] (p ∷ packets) b b' a e =
      let r = read_16 f junk p in
      fill_page-word n (i + 1) address r.1 packets _ b' a e
      ∙ fill_word (address + i * 2) r.0 a b.memory
  fill_page-word (suc n) i address (w ∷ packet) packets b b' a e =
      fill_page-word n (i + 1) address packet packets _ b' a e
      ∙ fill_word (address + i * 2) w a b.memory

  program_page-word :
      (address : ℕ) (packet : List ℕ) (packets : List (List ℕ)) (b b' : Bootloader f) (a : ℕ)
      → program_page f junk address packet packets b ≡ some b'
      → (a / 64 == address / 64) ≡ false
      → word b'.memory a ≡ word b.memory a
  unfolding program_page
  program_page-word address packet packets b b' a e other =
      let erased : Bootloader f = record b { memory = f.page_erase address b.memory } in
      elim (Option-cases (fill_page f junk 32 0 address packet packets erased)) [
        | inl stuck ↦ ground (arith, e, stuck)
        | inr (b1, done) ↦ ground (
          arith,
          e,
          done,
          other,
          fill_page-word 32 0 address packet packets erased b1 a done,
          erase_word address a b.memory,
          write_word address a b1.memory,
          rww_word a (f.page_write address b1.memory),
        )
      ]

  -- Whatever the host requests and sends: when the request has returned, every word of the memory
  -- from 0x1800 on, where the bootloader is, is as it was.
  pub control_request-boot_start_addr :
      (r : ControlRequest) (packets : List (List ℕ)) (b b' : Bootloader f) (a : ℕ)
      → control_request f junk r packets b ≡ some b'
      → 0x1800 ≤ a
      → word b'.memory a ≡ word b.memory a
  unfolding control_request set_report
  control_request-boot_start_addr r [] b b' a e p = ground (arith, e)
  control_request-boot_start_addr r (packet ∷ packets) b b' a e p =
      let (address, rest) = read_16 f junk packet in
      elim (Option-cases (program_page f junk address rest packets (call f clear_setup b))) [
        | inl stuck ↦ ground (arith, e, stuck)
        | inr (b1, done) ↦ ground (
          arith,
          e,
          done,
          p,
          program_page-word address rest packets (call f clear_setup b) b1 a done,
        )
      ]
