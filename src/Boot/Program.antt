-- ===== src/Boot/Program.antt =====
-- What a request of the host leaves in the flash memory, for a flash that keeps what is documented.
use Prim.Native.Nat.{bit_and}
use mathlib.Core.List.{head-eq_of_cons-eq, tail-eq_of_cons-eq}
use mymouse.Base.{
  ℕ, zero, suc, ◌+◌, ◌*◌, ◌/◌, ◌%◌, ◌^◌, ◌≤◌, ◌<◌, ◌≡◌, refl, ◌∙◌, ap, ap₂, true, false, List, [],
  ◌∷◌, ◌++◌, some, ◌==◌, if◌then◌else◌, length, get_or, AllOf, AllOf-get_or, arith, inl, inr,
  Bool-cases,
}
use mymouse.Base.Bits.Masks.{bit_and-ones}
use mymouse.Boot.{Flash, Bootloader, call, clear_out, fill_page}

-- `word s a` is the word at the byte address `a`, and `buffer s o` the one of the page buffer at the
-- offset `o`. A write can only clear bits.
pub record IsFlash (f : Flash) : Type 0 where
  pub word : f.State → ℕ → ℕ
  pub buffer : f.State → ℕ → ℕ
  pub erase_word :
      (p a : ℕ) (s : f.State)
      → word (f.page_erase p s) a ≡ (if a / 64 == p / 64 then 0xFFFF else word s a)
  pub fill_word : (a w b : ℕ) (s : f.State) → word (f.page_fill a w s) b ≡ word s b
  pub fill_buffer :
      (a w o : ℕ) (s : f.State)
      → buffer (f.page_fill a w s) o ≡ (if o == a % 64 then w else buffer s o)
  pub write_word :
      (p a : ℕ) (s : f.State)
      → word (f.page_write p s) a
        ≡ (if a / 64 == p / 64 then bit_and (buffer s (a % 64)) (word s a) else word s a)
  pub rww_word : (a : ℕ) (s : f.State) → word (f.rww_enable s) a ≡ word s a

abbrev pub concat : List (List ℕ) → List ℕ
concat [] = []
concat (p ∷ packets) = p ++ concat packets

abbrev pub IsWord : ℕ → Type 0
IsWord n = n < 65536

bit_and-word : (x : ℕ) → IsWord x → bit_and x 0xFFFF ≡ x
bit_and-word x h = let e : 0 * 2 ^ 16 + x ≡ x = omega arith in rw e at (bit_and-ones 16 0 x h)

module _ (f : Flash) where
  -- The words of a page, put into the buffer from number `i` on.
  abbrev pub fill_words : ℕ → ℕ → List ℕ → f.State → f.State
  fill_words i address [] s = s
  fill_words i address (w ∷ ws) s =
      fill_words (i + 1) address ws (f.page_fill (address + i * 2) w s)

  pub fill_page-fill_words :
      (junk n i address : ℕ) (packet : List ℕ) (packets : List (List ℕ)) (b : Bootloader f)
      (words extra : List ℕ)
      → packet ++ concat packets ≡ words ++ extra
      → length words ≡ n
      → AllOf (λ p. 0 < length p) packets
      → (b' : Bootloader f) × (fill_page f junk n i address packet packets b ≡ some b')
        × (b'.memory ≡ fill_words i address words b.memory)
        × (b'.run_bootloader ≡ b.run_bootloader)
  unfolding fill_page
  fill_page-fill_words junk zero i address packet packets b [] extra e l h = (b, refl, refl, refl)
  fill_page-fill_words junk zero i address packet packets b (w ∷ words) extra e l h =
      absurd (omega (arith, l))
  fill_page-fill_words junk (suc n) i address packet packets b [] extra e l h =
      absurd (omega (arith, l))
  fill_page-fill_words junk (suc n) i address [] [] b (w ∷ words) extra e l h = ground (arith, e)
  fill_page-fill_words junk (suc n) i address [] ([] ∷ packets) b (w ∷ words) extra e l (h, hs) =
      absurd (omega (arith, h))
  fill_page-fill_words junk (suc n) i address [] ((y ∷ p) ∷ packets) b (w ∷ words) extra e l
        (h, hs) =
      let (b', done, filled, running) =
        fill_page-fill_words junk n (i + 1) address p packets
          (record (call f clear_out b) { memory = f.page_fill (address + i * 2) y b.memory }) words
          extra (tail-eq_of_cons-eq e) (omega (arith, l)) hs in
      (
        b',
        done,
        filled
            ∙ ap (λ v. fill_words (i + 1) address words (f.page_fill (address + i * 2) v b.memory))
                (head-eq_of_cons-eq e),
        running,
      )
  fill_page-fill_words junk (suc n) i address (y ∷ packet) packets b (w ∷ words) extra e l hs =
      let (b', done, filled, running) =
        fill_page-fill_words junk n (i + 1) address packet packets
          (record b { memory = f.page_fill (address + i * 2) y b.memory }) words extra
          (tail-eq_of_cons-eq e) (omega (arith, l)) hs in
      (
        b',
        done,
        filled
            ∙ ap (λ v. fill_words (i + 1) address words (f.page_fill (address + i * 2) v b.memory))
                (head-eq_of_cons-eq e),
        running,
      )

  module _ (laws : IsFlash f) where
    open laws use {word, buffer, erase_word, fill_word, fill_buffer, write_word, rww_word}

    fill_words-word :
        (i address : ℕ) (words : List ℕ) (s : f.State) (a : ℕ)
        → word (fill_words i address words s) a ≡ word s a
    fill_words-word i address [] s a = refl
    fill_words-word i address (w ∷ words) s a =
        fill_words-word (i + 1) address words (f.page_fill (address + i * 2) w s) a
        ∙ fill_word (address + i * 2) w a s

    fill_words-below :
        (i j address : ℕ) (words : List ℕ) (s : f.State)
        → address % 64 ≡ 0
        → i + length words ≤ 32
        → j < i
        → buffer (fill_words i address words s) (j * 2) ≡ buffer s (j * 2)
    fill_words-below i j address [] s aligned fits p = refl
    fill_words-below i j address (w ∷ words) s aligned fits p =
        let other : (j * 2 == (address + i * 2) % 64) ≡ false = ground (arith, aligned, fits, p) in
        fill_words-below (i + 1) j address words (f.page_fill (address + i * 2) w s) aligned
          (omega (arith, fits)) (omega (arith, p))
        ∙ fill_buffer (address + i * 2) w (j * 2) s
        ∙ rw other refl

    fill_words-buffer :
        (i k address : ℕ) (words : List ℕ) (s : f.State)
        → address % 64 ≡ 0
        → i + length words ≤ 32
        → k < length words
        → buffer (fill_words i address words s) ((i + k) * 2) ≡ get_or words k 0
    fill_words-buffer i k address [] s aligned fits p = absurd (omega arith)
    fill_words-buffer i zero address (w ∷ words) s aligned fits p =
        let z : i + 0 ≡ i = omega arith in
        let here : (i * 2 == (address + i * 2) % 64) ≡ true = ground (arith, aligned, fits) in
        rw z (
          fill_words-below (i + 1) i address words (f.page_fill (address + i * 2) w s) aligned
            (omega (arith, fits)) (omega arith)
          ∙ fill_buffer (address + i * 2) w (i * 2) s
          ∙ rw here refl)
    fill_words-buffer i (suc k) address (w ∷ words) s aligned fits p =
        let e : i + suc k ≡ i + 1 + k = omega arith in
        rw e (
          fill_words-buffer (i + 1) k address words (f.page_fill (address + i * 2) w s) aligned
            (omega (arith, fits)) (omega (arith, p)))

    -- The memory after the page at `address` is erased, filled and written.
    abbrev pub programmed : ℕ → List ℕ → f.State → f.State
    programmed address words s =
        f.rww_enable (f.page_write address (fill_words 0 address words (f.page_erase address s)))

    pub programmed-word :
        (address : ℕ) (words : List ℕ) (s : f.State) (i : ℕ)
        → address % 64 ≡ 0
        → length words ≡ 32
        → AllOf IsWord words
        → word (programmed address words s) (i * 2)
          ≡ (if i / 32 == address / 64 then get_or words (i % 32) 0 else word s (i * 2))
    programmed-word address words s i aligned size small =
        let erased = f.page_erase address s in
        let filled = fill_words 0 address words erased in
        let page : i * 2 / 64 ≡ i / 32 = omega arith in
        let offset : i * 2 % 64 ≡ i % 32 * 2 = omega arith in
        let k : 0 + i % 32 ≡ i % 32 = omega arith in
        let kept : bit_and (get_or words (i % 32) 0) 0xFFFF ≡ get_or words (i % 32) 0 =
          bit_and-word (get_or words (i % 32) 0)
            (AllOf-get_or IsWord words (i % 32) 0 small (omega (arith, size))) in
        let held : buffer filled (i % 32 * 2) ≡ get_or words (i % 32) 0 = rw k at (
          fill_words-buffer 0 (i % 32) address words erased aligned (omega (arith, size))
            (omega (arith, size))) in
        let before : word filled (i * 2)
            ≡ (if i / 32 == address / 64 then 0xFFFF else word s (i * 2)) =
          fill_words-word 0 address words erased (i * 2)
          ∙ erase_word address (i * 2) s
          ∙ rw page refl in
        rww_word (i * 2) (f.page_write address filled)
        ∙ write_word address (i * 2) filled
        ∙ rw (page, offset)
            (elim (Bool-cases (i / 32 == address / 64)) [
              | inl e ↦ rw e (ap₂ bit_and held (before ∙ rw e refl) ∙ kept)
              | inr e ↦ rw e (before ∙ rw e refl)
            ])
