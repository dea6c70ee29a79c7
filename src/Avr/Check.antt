-- ===== src/Avr/Check.antt =====
-- What the checksum of the nRF's `avr_transceive` tells apart.
use mymouse.Base.{
  ℕ, suc, ◌+◌, ◌<◌, ◌≡◌, ◌≢◌, refl, true, false, List, [], ◌∷◌, ◌++◌, none, length, arith, eio, ok,
  err,
}
use mymouse.Avr.Crc.{update_crc}
use mymouse.Avr.Crc.Laws.{
  AllBytes, update_crc-lt, update_crc_injective_crc, update_crc_injective_byte,
}
use mymouse.Avr.Slave.Answer.{answer}
use mymouse.Avr.Master.{Done, check_crc, avr_transceive, verify_avr_id, avr_spi_done_callback}

-- Two checksums that differ at some point cannot both be right in the end.
check_crc_differ :
    (a b : ℕ) (byte : ℕ) (bytes : List ℕ)
    → a < 256
    → b < 256
    → AllBytes (byte ∷ bytes)
    → a ≢ b
    → check_crc a (byte ∷ bytes) ≡ true
    → check_crc b (byte ∷ bytes) ≡ false
unfolding check_crc
check_crc_differ a b x [] ha hb h ne e = ground arith
check_crc_differ a b x (y ∷ bytes) ha hb h ne e =
    check_crc_differ (update_crc a x) (update_crc b x) y bytes (update_crc-lt a x ha h.0)
      (update_crc-lt b x hb h.0) h.1 (λ q. ne (update_crc_injective_crc a b x ha hb h.0 q)) e

check_crc_damaged :
    (crc : ℕ) (before : List ℕ) (good bad : ℕ) (after : List ℕ)
    → crc < 256
    → AllBytes before
    → good < 256
    → bad < 256
    → AllBytes after
    → good ≢ bad
    → check_crc crc (before ++ good ∷ after) ≡ true
    → check_crc crc (before ++ bad ∷ after) ≡ false
unfolding check_crc
check_crc_damaged crc [] good bad [] h hb hg hx ha ne e = ground arith
check_crc_damaged crc [] good bad (y ∷ after) h hb hg hx ha ne e =
    check_crc_differ (update_crc crc good) (update_crc crc bad) y after
      (update_crc-lt crc good h hg) (update_crc-lt crc bad h hx) ha
      (λ q. ne (update_crc_injective_byte crc good bad h hg hx q)) e
check_crc_damaged crc (x ∷ []) good bad after h hb hg hx ha ne e =
    check_crc_damaged (update_crc crc x) [] good bad after (update_crc-lt crc x h hb.0) hb.1 hg hx
      ha ne e
check_crc_damaged crc (x ∷ y ∷ before) good bad after h hb hg hx ha ne e =
    check_crc_damaged (update_crc crc x) (y ∷ before) good bad after (update_crc-lt crc x h hb.0)
      hb.1 hg hx ha ne e

-- The handshake and both transfers were done.
abbrev pub both_done : List Done
both_done =
    record { handshake_rx = 0x43; second = none }
    ∷ record { handshake_rx = 0x43; second = none }
    ∷ []

-- A received buffer that is damaged in one byte is refused with EIO, wherever the byte is, the
-- checksum at the end included, if the undamaged one was accepted. It has at most 256 bytes.
pub avr_transceive-corrupted :
    (before : List ℕ) (good bad : ℕ) (after : List ℕ)
    → AllBytes before
    → good < 256
    → bad < 256
    → AllBytes after
    → good ≢ bad
    → length before + length after < 256
    → avr_transceive none both_done (before ++ good ∷ after) ≡ ok 0
    → avr_transceive none both_done (before ++ bad ∷ after) ≡ err eio
unfolding avr_transceive avr_spi_done_callback
avr_transceive-corrupted before good bad after hb hg hx ha ne size e =
    ground (arith, check_crc_damaged 0 before good bad after (omega arith) hb hg hx ha ne)

-- The master's check accepts an answer that is at least one byte longer than its data.
pub answer-check_crc :
    (crc : ℕ) (bytes : List ℕ) → check_crc crc (answer (suc (length bytes)) crc bytes) ≡ true
unfolding check_crc
answer-check_crc crc [] = ground arith
answer-check_crc crc (b ∷ []) = answer-check_crc (update_crc crc b) []
answer-check_crc crc (b ∷ c ∷ bytes) = answer-check_crc (update_crc crc b) (c ∷ bytes)

pub accepted : (rx : List ℕ) → check_crc 0 rx ≡ true → avr_transceive none both_done rx ≡ ok 0
unfolding avr_transceive avr_spi_done_callback
accepted rx e = ground (arith, e)

pub verified :
    (crc : ℕ)
    → check_crc 0 (0x1E ∷ 0x93 ∷ 0x89 ∷ crc ∷ []) ≡ true
    → verify_avr_id none both_done (0x1E ∷ 0x93 ∷ 0x89 ∷ crc ∷ []) ≡ ok 0
unfolding verify_avr_id
verified crc e = rw (accepted _ e, verify_avr_id) refl
