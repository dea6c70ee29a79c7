-- ===== src/Avr/Slave/Answer.antt =====
-- What the AVR puts on the wire.
use mymouse.Base.{
  ℕ, zero, suc, ◌<◌, ◌≤◌, ◌≡◌, refl, ◌∙◌, ap₂, lt→ltb, List, [], ◌∷◌, length, get_or, drop,
  AllOf-get_or, arith,
}
use native.Mathlib.Decide.{dec_lt}
use native.Mathlib.Numerals.{add-one}
use mymouse.Avr.Crc.{Ibutton, update_crc}
use mymouse.Avr.Crc.Laws.{AllBytes, update_crc-lt}
use mymouse.Avr.Slave.{Slave, store_rx_byte, get_next_tx_byte, transfer}

-- `n` bytes of an answer: what is left of the data, then its checksum over and over.
abbrev pub answer : ℕ → ℕ → List ℕ → List ℕ
answer zero crc bytes = []
answer (suc n) crc [] = crc ∷ answer n crc []
answer (suc n) crc (b ∷ bytes) = b ∷ answer n (update_crc crc b) bytes

drop-get_or :
    (bytes : List ℕ) (i : ℕ)
    → i < length bytes
    → drop i bytes ≡ get_or bytes i 0 ∷ drop (suc i) bytes
drop-get_or [] i h = absurd (omega arith)
drop-get_or (b ∷ bytes) zero h = refl
drop-get_or (b ∷ bytes) (suc i) h = drop-get_or bytes i (omega arith)

drop-length : (bytes : List ℕ) (i : ℕ) → length bytes ≤ i → drop i bytes ≡ []
drop-length [] zero h = refl
drop-length [] (suc i) h = refl
drop-length (b ∷ bytes) zero h = absurd (omega arith)
drop-length (b ∷ bytes) (suc i) h = drop-length bytes i (omega arith)

-- The data to transmit is as long as `num_tx` says, and all of it is bytes.
pub record IsSending (s : Slave) : Type 0 where
  pub counted : s.num_tx ≡ length s.tx_data
  pub in_range : s.tx_idx ≤ s.num_tx
  pub crc_fits : s.tx_crc < 256
  pub bytes : AllBytes s.tx_data

-- Receiving leaves the data to transmit alone.
pub store_rx_byte-sending :
    (value : ℕ) (s : Slave)
    → let s' = store_rx_byte value s in
      (s'.num_tx ≡ s.num_tx)
      × (s'.tx_data ≡ s.tx_data)
      × (s'.tx_idx ≡ s.tx_idx)
      × (s'.tx_crc ≡ s.tx_crc)
unfolding store_rx_byte
store_rx_byte-sending value s = ground arith

module _ (ibutton : Ibutton) where
  open ibutton use {crc_ibutton_update, update_lem}

  -- A byte of the data, and the checksum when there is none left.
  next_data :
      (s : Slave)
      → IsSending s
      → s.tx_idx < s.num_tx
      → get_next_tx_byte ibutton s ≡ (
        record s {
          tx_idx = suc s.tx_idx;
          tx_crc = update_crc s.tx_crc (get_or s.tx_data s.tx_idx 0);
        },
        get_or s.tx_data s.tx_idx 0,
      )
  unfolding get_next_tx_byte
  next_data s h l =
      let fits : get_or s.tx_data s.tx_idx 0 < 256 =
        AllOf-get_or (λ b. b < 256) s.tx_data s.tx_idx 0 h.bytes (omega (arith, h.counted)) in
      rw (lt→ltb s.tx_idx s.num_tx l, update_lem s.tx_crc _ h.crc_fits fits, add-one s.tx_idx) refl

  pub next_crc : (s : Slave) → s.num_tx ≤ s.tx_idx → get_next_tx_byte ibutton s ≡ (s, s.tx_crc)
  unfolding get_next_tx_byte
  next_crc s l = ground arith

  next-IsSending : (s : Slave) → IsSending s → IsSending (get_next_tx_byte ibutton s).0
  next-IsSending s h = elim (dec_lt s.tx_idx s.num_tx) [
    | yes l ↦ rw (next_data s h l) record {
      counted = h.counted;
      in_range = omega (arith, l);
      crc_fits =
          update_crc-lt s.tx_crc _ h.crc_fits
            (AllOf-get_or (λ b. b < 256) s.tx_data s.tx_idx 0 h.bytes (omega (arith, h.counted)));
      bytes = h.bytes;
    }
    | no nl ↦ rw (next_crc s (omega arith)) h
  ]

  store-IsSending : (value : ℕ) (s : Slave) → IsSending s → IsSending (store_rx_byte value s)
  store-IsSending value s h =
      let (n, d, i, c) = store_rx_byte-sending value s in
      record {
        counted = rw (n, d) h.counted;
        in_range = rw (n, i) h.in_range;
        crc_fits = rw c h.crc_fits;
        bytes = rw d h.bytes;
      }

  -- What the loop sends is the rest of the data, and then the checksum.
  pub transfer-answer :
      (bytes : List ℕ) (s : Slave)
      → IsSending s
      → (transfer ibutton bytes s).1 ≡ answer (length bytes) s.tx_crc (drop s.tx_idx s.tx_data)
  unfolding transfer
  transfer-answer [] s h = refl
  transfer-answer (b ∷ bytes) s h =
      let s₁ = (get_next_tx_byte ibutton s).0 in
      let (n, d, i, c) = store_rx_byte-sending b s₁ in
      let later : (transfer ibutton bytes (store_rx_byte b s₁)).1
          ≡ answer (length bytes) s₁.tx_crc (drop s₁.tx_idx s₁.tx_data) =
        transfer-answer bytes (store_rx_byte b s₁) (store-IsSending b s₁ (next-IsSending s h))
        ∙ rw (c, i, d) refl in
      ap₂ ◌∷◌ refl later ∙ elim (dec_lt s.tx_idx s.num_tx) [
        | yes l ↦
            rw (next_data s h l, drop-get_or s.tx_data s.tx_idx (omega (arith, h.counted))) refl
        | no nl ↦
            rw (next_crc s (omega arith), drop-length s.tx_data s.tx_idx (omega (arith, h.counted)))
              refl
      ]
