-- ===== src/Boot/Cycle/Tests.antt =====
-- A flash memory as two functions, whose second page is replaced after the power came on.
use Prim.Native.Nat.{bit_and}
use mymouse.Base.{
  ℕ, ◌*◌, ◌/◌, ◌%◌, ◌≡◌, ◌≤◌, refl, true, false, List, [], ◌==◌, if◌then◌else◌, get_or, replicate,
  arith,
}
use mymouse.Boot.{Flash, application_jump_check}
use mymouse.Boot.Program.{IsFlash}
use mymouse.Boot.Cycle.{
  Stage, application, memory_of, after_reset, Reaches, here, next, hung, new_usb,
}
use mymouse.Boot.Cycle.Kept.{IsStage, reaches-kept}
use mymouse.Boot.Cycle.Update.{reaches-programmed}

abbrev words_and_buffer : Flash
words_and_buffer = record {
  State = (ℕ → ℕ) × (ℕ → ℕ);
  page_erase = λ p s. (λ a. if a / 64 == p / 64 then 0xFFFF else s.0 a, s.1);
  page_fill = λ a w s. (s.0, λ o. if o == a % 64 then w else s.1 o);
  page_write =
      λ p s. (λ a. if a / 64 == p / 64 then bit_and (s.1 (a % 64)) (s.0 a) else s.0 a, s.1);
  rww_enable = λ s. s;
}

abbrev words_and_buffer-IsFlash : IsFlash words_and_buffer
words_and_buffer-IsFlash = record {
  word = λ s a. s.0 a;
  buffer = λ s o. s.1 o;
  erase_word = λ p a s. refl;
  fill_word = λ a w b s. refl;
  fill_buffer = λ a w o s. refl;
  write_word = λ p a s. refl;
  rww_word = λ a s. refl;
}

abbrev old : (ℕ → ℕ) × (ℕ → ℕ)
old = (λ a. 7, λ o. 0)

abbrev start : Stage words_and_buffer 0
start = after_reset words_and_buffer 0 false 3 old

abbrev page : List ℕ
page = replicate 32 5

-- The application hangs, and the bootloader runs.
hangs : Reaches words_and_buffer 0 start (after_reset words_and_buffer 0 true 0 old)
unfolding after_reset application_jump_check
hangs = next _ _ here (hung new_usb 0 old refl refl)

reaches-kept_example :
    let t = after_reset words_and_buffer 0 true 0 old in
    IsStage words_and_buffer words_and_buffer-IsFlash 0 t
    × ((a : ℕ) → 0x1800 ≤ a → (memory_of words_and_buffer 0 t).0 a ≡ 7)
unfolding after_reset
reaches-kept_example = reaches-kept words_and_buffer words_and_buffer-IsFlash 0 3 old _ hangs

starts : Reaches words_and_buffer 0 start (application new_usb 0 old)
unfolding after_reset application_jump_check
starts = here

reaches-programmed_example :
    (memory' : (ℕ → ℕ) × (ℕ → ℕ)) × Reaches words_and_buffer 0
      (application new_usb 0 old)
      (application new_usb 0 memory')
    × ((i : ℕ) → memory'.0 (i * 2) ≡ (if i / 32 == 64 / 64 then get_or page (i % 32) 0 else 7))
reaches-programmed_example =
    reaches-programmed words_and_buffer words_and_buffer-IsFlash 0 3 old new_usb 0 old 64 page []
      page [] starts refl refl (omega arith) tt (omega arith) (omega arith)
