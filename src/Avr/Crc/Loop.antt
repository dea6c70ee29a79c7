-- ===== src/Avr/Crc/Loop.antt =====
-- The loop of `avr_transceive` in app-nrf/src/services/avr_comm.c over the received bytes, with its
-- index of 8 bits, on fuel.
use mymouse.Base.{
  ℕ, zero, suc, ◌+◌, ◌-◌, ◌%◌, ◌^◌, ◌<◌, ◌≡◌, refl, List, [], ◌∷◌, Option, none, some, ltb,
  if◌then◌else◌, get_or, length, true, arith, ap, ◌++◌, ◌==◌, length-append,
}
use mymouse.Avr.Crc.{update_crc}
use mymouse.Avr.Master.{check_crc}

-- The index and the checksum when the loop ends.
unfoldable pub crc_loop : ℕ → ℕ → ℕ → ℕ → List ℕ → Option (ℕ × ℕ)
crc_loop zero i crc rx_len rx_buf = none
crc_loop (suc fuel) i crc rx_len rx_buf =
    let rest = crc_loop fuel ((i + 1) % 2 ^ 8) (update_crc crc (get_or rx_buf i 0)) rx_len rx_buf in
    if ltb i (rx_len - 1) then rest else some (i, crc)

-- For more than 256 bytes the loop does not end.
crc_loop_endless :
    (fuel i crc rx_len : ℕ) (rx_buf : List ℕ)
    → i < 256
    → 256 < rx_len
    → crc_loop fuel i crc rx_len rx_buf ≡ none
unfolding crc_loop
crc_loop_endless zero i crc rx_len rx_buf h l = refl
crc_loop_endless (suc fuel) i crc rx_len rx_buf h l = ground (
  arith,
  h,
  l,
  crc_loop_endless fuel ((i + 1) % 2 ^ 8) (update_crc crc (get_or rx_buf i 0)) rx_len rx_buf
      (omega arith) l,
)

get_or-append : (before rest : List ℕ) (b : ℕ) → get_or (before ++ b ∷ rest) (length before) 0 ≡ b
get_or-append [] rest b = refl
get_or-append (x ∷ before) rest b = get_or-append before rest b

append_cons : (xs : List ℕ) (v : ℕ) (ys : List ℕ) → (xs ++ v ∷ []) ++ ys ≡ xs ++ v ∷ ys
append_cons [] v ys = refl
append_cons (x ∷ xs) v ys = ap (λ (l : List ℕ). x ∷ l) (append_cons xs v ys)

-- For 1 to 256 bytes it ends, and the comparison after it is `check_crc`. It has read the bytes
-- `before`, and `rest` follows.
crc_loop-check_crc :
    (fuel crc : ℕ) (before : List ℕ) (b : ℕ) (rest : List ℕ)
    → length before + length rest < 256
    → length rest < fuel
    → let rx_buf = before ++ b ∷ rest in
      (i : ℕ) × (c : ℕ) × (crc_loop fuel
          (length before)
          crc
          (length before + suc (length rest))
          rx_buf
        ≡ some (i, c))
      × (check_crc crc (b ∷ rest) ≡ (c == get_or rx_buf i 0))
unfolding crc_loop check_crc
crc_loop-check_crc zero crc before b rest h l = absurd (omega arith)
crc_loop-check_crc (suc fuel) crc before b [] h l =
    (length before, crc, ground arith, rw (get_or-append before [] b) refl)
crc_loop-check_crc (suc fuel) crc before b (d ∷ rest) h l =
    let size = length-append before (b ∷ []) in
    let (i, c, runs, checks) =
      crc_loop-check_crc fuel (update_crc crc b) (before ++ b ∷ []) d rest (omega (arith, size))
        (omega arith) in
    let more : ltb (length before) (length before + suc (suc (length rest)) - 1) ≡ true =
      ground arith in
    let next_i : (length before + 1) % 2 ^ 8 ≡ length (before ++ b ∷ []) = omega (arith, h, size) in
    let bound : length before + suc (suc (length rest))
        ≡ length (before ++ b ∷ []) + suc (length rest) =
      omega (arith, size) in
    let buffer = append_cons before b (d ∷ rest) in
    (
      i,
      c,
      rw (more, next_i, get_or-append before (d ∷ rest) b, bound, ← buffer) runs,
      rw (← buffer) checks,
    )
