-- ===== src/Avr/Slave/Describe.antt =====
-- The report descriptor that the AVR receives from the nRF, before it is on the USB bus.
use mymouse.Base.{
  ℕ, suc, ◌+◌, ◌≤◌, ◌≡◌, refl, sym, ◌∙◌, ap, List, [], ◌∷◌, ◌++◌, length, set, take, length-set,
  arith, lt→ltb,
}
use native.Mathlib.Numerals.{add-one}
use mymouse.Avr.Crc.{Ibutton}
use mymouse.Avr.Slave.{Slave, hid_report_desc, store_rx_byte, get_next_tx_byte, transfer}
use mymouse.Avr.Slave.Answer.{next_crc}
use mymouse.Avr.Slave.Receive.{take-set, append_cons, append_nil}

-- The AVR receives into the rest of `hid_report_desc`, has nothing more to send, and has room for
-- `n` more bytes.
pub record IsDescribed (n : ℕ) (s : Slave) : Type 0 where
  pub sent : s.num_tx ≤ s.tx_idx
  pub target : s.rx_data ≡ hid_report_desc
  pub buffer : length s.descriptor ≡ s.num_rx
  pub room : s.rx_idx + n ≤ s.num_rx

stored :
    (n byte : ℕ) (s : Slave)
    → IsDescribed (suc n) s
    → store_rx_byte byte s
      ≡ record s { descriptor = set s.descriptor s.rx_idx byte; rx_idx = suc s.rx_idx }
unfolding store_rx_byte
stored n byte s h =
    rw (lt→ltb s.rx_idx s.num_rx (omega (arith, h.room)), h.target, add-one s.rx_idx) refl

module _ (ibutton : Ibutton) where
  -- The bytes follow those that were received before.
  pub transfer-descriptor :
      (bytes : List ℕ) (s : Slave)
      → IsDescribed (length bytes) s
      → let s' = (transfer ibutton bytes s).0 in
        (s' ≡ record s { rx_idx = s'.rx_idx; descriptor = s'.descriptor })
        × (s'.rx_idx ≡ s.rx_idx + length bytes)
        × (take s'.rx_idx s'.descriptor ≡ take s.rx_idx s.descriptor ++ bytes)
  unfolding transfer
  transfer-descriptor [] s h = (refl, omega arith, sym (append_nil _))
  transfer-descriptor (b ∷ bytes) s h =
      let s₁ = record s { descriptor = set s.descriptor s.rx_idx b; rx_idx = suc s.rx_idx } in
      let e : store_rx_byte b (get_next_tx_byte ibutton s).0 ≡ s₁ =
        ap (λ (p : Slave × ℕ). store_rx_byte b p.0) (next_crc ibutton s h.sent)
        ∙ stored (length bytes) b s h in
      let h₁ : IsDescribed (length bytes) s₁ = record {
        sent = h.sent;
        target = h.target;
        buffer = length-set s.descriptor s.rx_idx b ∙ h.buffer;
        room = omega (arith, h.room);
      } in
      let later = transfer-descriptor bytes s₁ h₁ in
      rw e (
        later.0,
        omega (arith, later.1),
        later.2
            ∙ ap (λ l. l ++ bytes)
                (take-set s.descriptor s.rx_idx b (omega (arith, h.room, h.buffer)))
            ∙ append_cons (take s.rx_idx s.descriptor) b bytes,
      )
