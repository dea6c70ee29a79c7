-- ===== src/Avr/Crc/Laws.antt =====
-- The checksum stays in its byte, and tells a buffer from one with another byte in it.
use Prim.Native.Nat.{bit_xor}
use mymouse.Base.{ℕ, zero, suc, ◌/◌, ◌%◌, ◌^◌, ◌<◌, ◌≡◌, refl, ap, List, AllOf, arith}
use native.Mathlib.Nat.{pow-suc}
use native.Mathlib.Decide.{ℕ_discrete}
use mymouse.Base.Bits.{test_bit, bits_ext, test_bit-bit_xor, test_bit-lt, test_bit-above}
use mymouse.Base.Bits.Step.{bit_xor_step}
use mymouse.Avr.Crc.{shift_out, shift_all, update_crc}

pub bit_xor-lt : (w a b : ℕ) → a < 2 ^ w → b < 2 ^ w → bit_xor a b < 2 ^ w
bit_xor-lt zero a b h k =
    let ea : a ≡ 0 = omega arith in let eb : b ≡ 0 = omega arith in rw (ea, eb) (omega arith)
bit_xor-lt (suc w) a b h k = omega (
  arith,
  pow-suc 2 w,
  bit_xor_step a b,
  bit_xor-lt w (a / 2) (b / 2) (omega (arith, pow-suc 2 w)) (omega (arith, pow-suc 2 w)),
)

-- The same number can be taken off again.
bit_xor_cancel : (w a b c : ℕ) → a < 2 ^ w → b < 2 ^ w → bit_xor a c ≡ bit_xor b c → a ≡ b
bit_xor_cancel w a b c ha hb e = bits_ext w a b ha hb λ i k. omega (
  arith,
  ap (λ (m : ℕ). test_bit m i) e,
  test_bit-bit_xor a c i,
  test_bit-bit_xor b c i,
  test_bit-lt a i,
  test_bit-lt b i,
)

bit_xor_cancel_left : (w a b c : ℕ) → a < 2 ^ w → b < 2 ^ w → bit_xor c a ≡ bit_xor c b → a ≡ b
bit_xor_cancel_left w a b c ha hb e = bits_ext w a b ha hb λ i k. omega (
  arith,
  ap (λ (m : ℕ). test_bit m i) e,
  test_bit-bit_xor c a i,
  test_bit-bit_xor c b i,
  test_bit-lt a i,
  test_bit-lt b i,
)

shift_out-lt : (c : ℕ) → c < 256 → shift_out c < 256
unfolding shift_out
shift_out-lt c h = ground (arith, bit_xor-lt 8 (c / 2) 0x8C (omega arith) (omega arith))

-- The top bit of the shifted checksum is the bit that was shifted out.
shift_out-top : (c : ℕ) → c < 256 → test_bit (shift_out c) 7 ≡ c % 2
unfolding shift_out
shift_out-top c h = elim (ℕ_discrete (c % 2) 1) [
  | yes e ↦
      let top : test_bit 0x8C 7 ≡ 1 = unfold test_bit in refl in
      rw e (
        omega (
          arith,
          test_bit-bit_xor (c / 2) 0x8C 7,
          top,
          test_bit-above 7 (c / 2) 7 (omega arith) (omega arith),
        ))
  | no ne ↦
      let z : c % 2 ≡ 0 = omega arith in
      rw z (test_bit-above 7 (c / 2) 7 (omega arith) (omega arith))
]

shift_out_injective : (a b : ℕ) → a < 256 → b < 256 → shift_out a ≡ shift_out b → a ≡ b
shift_out_injective a b ha hb e =
    let parity : a % 2 ≡ b % 2 =
      omega (arith, shift_out-top a ha, shift_out-top b hb, ap (λ (m : ℕ). test_bit m 7) e) in
    elim (ℕ_discrete (a % 2) 1) [
      | yes o ↦
          let o' : b % 2 ≡ 1 = omega arith in
          let e' : bit_xor (a / 2) 0x8C ≡ bit_xor (b / 2) 0x8C =
            unfold shift_out in rw (o, o') at e in
          omega (arith, bit_xor_cancel 8 (a / 2) (b / 2) 0x8C (omega arith) (omega arith) e')
      | no no' ↦
          let z : a % 2 ≡ 0 = omega arith in
          let z' : b % 2 ≡ 0 = omega arith in
          let e' : a / 2 ≡ b / 2 = unfold shift_out in rw (z, z') at e in omega arith
    ]

shift_all-lt : (n c : ℕ) → c < 256 → shift_all n c < 256
unfolding shift_all
shift_all-lt zero c h = h
shift_all-lt (suc n) c h = shift_all-lt n (shift_out c) (shift_out-lt c h)

shift_all_injective : (n a b : ℕ) → a < 256 → b < 256 → shift_all n a ≡ shift_all n b → a ≡ b
unfolding shift_all
shift_all_injective zero a b ha hb e = e
shift_all_injective (suc n) a b ha hb e =
    shift_out_injective a b ha hb
      (shift_all_injective n (shift_out a) (shift_out b) (shift_out-lt a ha) (shift_out-lt b hb) e)

pub update_crc-lt : (crc byte : ℕ) → crc < 256 → byte < 256 → update_crc crc byte < 256
unfolding update_crc
update_crc-lt crc byte h k = shift_all-lt 8 (bit_xor crc byte) (bit_xor-lt 8 crc byte h k)

pub update_crc_injective_crc :
    (a b byte : ℕ) → a < 256 → b < 256 → byte < 256 → update_crc a byte ≡ update_crc b byte → a ≡ b
unfolding update_crc
update_crc_injective_crc a b byte ha hb h e =
    bit_xor_cancel 8 a b byte ha hb
      (shift_all_injective 8 _ _ (bit_xor-lt 8 a byte ha h) (bit_xor-lt 8 b byte hb h) e)

pub update_crc_injective_byte :
    (crc a b : ℕ) → crc < 256 → a < 256 → b < 256 → update_crc crc a ≡ update_crc crc b → a ≡ b
unfolding update_crc
update_crc_injective_byte crc a b h ha hb e =
    bit_xor_cancel_left 8 a b crc ha hb
      (shift_all_injective 8 _ _ (bit_xor-lt 8 crc a h ha) (bit_xor-lt 8 crc b h hb) e)

-- All bytes of a buffer are bytes.
abbrev pub AllBytes : List ℕ → Type 0
AllBytes = AllOf (λ b. b < 256)
