-- ===== src/Avr/Slave/Receive.antt =====
-- What the AVR makes of the bytes that it received: a report goes to the USB endpoint.
use mymouse.Base.{
  ℕ, zero, suc, ◌+◌, ◌<◌, ◌≤◌, ◌≡◌, refl, sym, ◌∙◌, ap, List, [], ◌∷◌, ◌++◌, length, set, take,
  length-set, arith, lt→ltb,
}
use native.Mathlib.Numerals.{add-one}
use mymouse.Avr.Crc.{Ibutton}
use mymouse.Avr.Slave.{Slave, rx_buf, store_rx_byte, get_next_tx_byte, transfer}
use mymouse.Avr.Slave.Answer.{next_crc}

pub take-set :
    (xs : List ℕ) (i v : ℕ) → i < length xs → take (suc i) (set xs i v) ≡ take i xs ++ v ∷ []
take-set [] i v h = absurd (omega arith)
take-set (x ∷ xs) zero v h = refl
take-set (x ∷ xs) (suc i) v h = ap (λ l. x ∷ l) (take-set xs i v (omega arith))

pub append_cons : (xs : List ℕ) (v : ℕ) (ys : List ℕ) → (xs ++ v ∷ []) ++ ys ≡ xs ++ v ∷ ys
append_cons [] v ys = refl
append_cons (x ∷ xs) v ys = ap (λ l. x ∷ l) (append_cons xs v ys)

pub append_nil : (xs : List ℕ) → xs ++ [] ≡ xs
append_nil [] = refl
append_nil (x ∷ xs) = ap (λ l. x ∷ l) (append_nil xs)

-- The AVR receives into `rx_buf`, has nothing more to send, and has room for `n` more bytes.
pub record IsReceiving (n : ℕ) (s : Slave) : Type 0 where
  pub sent : s.num_tx ≤ s.tx_idx
  pub target : s.rx_data ≡ rx_buf
  pub limit : s.num_rx ≡ 32
  pub buffer : length s.rx_bytes ≡ 32
  pub room : s.rx_idx + n ≤ 32

stored :
    (n byte : ℕ) (s : Slave)
    → IsReceiving (suc n) s
    → store_rx_byte byte s
      ≡ record s { rx_bytes = set s.rx_bytes s.rx_idx byte; rx_idx = suc s.rx_idx }
unfolding store_rx_byte
stored n byte s h =
    rw (lt→ltb s.rx_idx s.num_rx (omega (arith, h.room, h.limit)), h.target, add-one s.rx_idx) refl

module _ (ibutton : Ibutton) where
  -- The bytes follow those that were received before.
  pub transfer-received :
      (bytes : List ℕ) (s : Slave)
      → IsReceiving (length bytes) s
      → let s' = (transfer ibutton bytes s).0 in
        (s' ≡ record s { rx_idx = s'.rx_idx; rx_bytes = s'.rx_bytes })
        × (s'.rx_idx ≡ s.rx_idx + length bytes)
        × (take s'.rx_idx s'.rx_bytes ≡ take s.rx_idx s.rx_bytes ++ bytes)
  unfolding transfer
  transfer-received [] s h = (refl, omega arith, sym (append_nil _))
  transfer-received (b ∷ bytes) s h =
      let s₁ = record s { rx_bytes = set s.rx_bytes s.rx_idx b; rx_idx = suc s.rx_idx } in
      let e : store_rx_byte b (get_next_tx_byte ibutton s).0 ≡ s₁ =
        ap (λ (p : Slave × ℕ). store_rx_byte b p.0) (next_crc ibutton s h.sent)
        ∙ stored (length bytes) b s h in
      let h₁ : IsReceiving (length bytes) s₁ = record {
        sent = h.sent;
        target = h.target;
        limit = h.limit;
        buffer = length-set s.rx_bytes s.rx_idx b ∙ h.buffer;
        room = omega (arith, h.room);
      } in
      let later = transfer-received bytes s₁ h₁ in
      rw e (
        later.0,
        omega (arith, later.1),
        later.2
            ∙ ap (λ l. l ++ bytes)
                (take-set s.rx_bytes s.rx_idx b (omega (arith, h.room, h.buffer)))
            ∙ append_cons (take s.rx_idx s.rx_bytes) b bytes,
      )
