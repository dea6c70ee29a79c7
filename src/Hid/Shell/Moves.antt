-- ===== src/Hid/Shell/Moves.antt =====
-- What the moves of the shell add up to.
use mymouse.Base.{ℕ, ◌+◌, ◌%◌, ◌^◌, ◌<◌, ◌≡◌, refl, List, [], ◌∷◌, arith, ltb, true}
use mymouse.Base.Int.{ℤ, pos, negsuc, ◌+ℤ◌, wrap}
use mymouse.Hid.Report.{Report}
use mymouse.Base.Bits.{test_bit, test_bit-bit_or, test_bit-pow, test_bit-lt}
use mymouse.Hid.Collector.{KEvent, Collector, notify_data_available}
use mymouse.Hid.Shell.{Pending, report_filler, cmd_report_move}

-- The moves, one command after the other.
abbrev pub move_all :
    (kernel : KEvent) (num_sources : ℕ) (hid_src_shell : ℤ)
    → List (ℤ × ℤ)
    → Pending × Collector kernel
    → Pending × Collector kernel
move_all kernel num_sources hid_src_shell [] s = s
move_all kernel num_sources hid_src_shell ((x, y) ∷ ms) s =
    move_all kernel num_sources hid_src_shell ms
      (cmd_report_move kernel num_sources hid_src_shell x y s)

abbrev pub sum_x : ℤ → List (ℤ × ℤ) → ℤ
sum_x a [] = a
sum_x a ((x, y) ∷ ms) = sum_x (a +ℤ x) ms

abbrev pub sum_y : ℤ → List (ℤ × ℤ) → ℤ
sum_y a [] = a
sum_y a ((x, y) ∷ ms) = sum_y (a +ℤ y) ms

wrap_sum : (a b : ℤ) → wrap 12 (pos (wrap 12 a) +ℤ b) ≡ wrap 12 (a +ℤ b)
unfolding ◌+ℤ◌
wrap_sum (pos m) (pos n) = ground arith
wrap_sum (pos m) (negsuc n) = ground arith
wrap_sum (negsuc m) (pos n) = ground arith
wrap_sum (negsuc m) (negsuc n) = ground arith

wrap_add : (a : ℤ) (n : ℕ) → (n + wrap 12 a) % 2 ^ 12 ≡ wrap 12 (a +ℤ pos n)
unfolding ◌+ℤ◌
wrap_add (pos m) n = ground arith
wrap_add (negsuc m) n = ground arith

module _ (kernel : KEvent) (num_sources id : ℕ) (valid : id < 31) where
  open kernel use {bits, post, bits-post}

  abbrev moves : List (ℤ × ℤ) → Pending × Collector kernel → Pending × Collector kernel
  moves = move_all kernel num_sources (pos id)

  abbrev notified : Collector kernel → ℕ
  notified c = test_bit (bits c.event) id

  bit-notify : (c : Collector kernel) → notified (notify_data_available kernel (pos id) c) ≡ 1
  unfolding notify_data_available
  bit-notify c =
      let v : ltb id 31 ≡ true = ground arith in
      rw v (
        rw
          (
            bits-post c.event (2 ^ id),
            test_bit-bit_or (bits c.event) (2 ^ id) id,
            test_bit-pow id id,
          )
          (ground (arith, test_bit-lt (bits c.event) id)))

  moves_lem :
      (ms : List (ℤ × ℤ)) (p : Pending) (c : Collector kernel) (a b : ℤ)
      → p.x_delta ≡ wrap 12 a
      → p.y_delta ≡ wrap 12 b
      → notified c ≡ 1
      → ((moves ms (p, c)).0.x_delta ≡ wrap 12 (sum_x a ms))
        × ((moves ms (p, c)).0.y_delta ≡ wrap 12 (sum_y b ms))
        × (notified (moves ms (p, c)).1 ≡ 1)
  unfolding cmd_report_move
  moves_lem [] p c a b hx hy n = (hx, hy, n)
  moves_lem ((x, y) ∷ ms) p c a b hx hy n =
      moves_lem ms _ _ (a +ℤ x) (b +ℤ y) (rw hx (wrap_sum a x)) (rw hy (wrap_sum b y))
        (bit-notify c)

  -- After one or more move commands, with nothing pending before, the collector is notified; and
  -- the next run of the shell's filler adds the sum of all the moves to the movement of the report,
  -- modulo the 12 bits of its fields, leaves the other fields, and leaves nothing pending.
  pub report_filler-moves :
      (x y : ℤ) (ms : List (ℤ × ℤ)) (c : Collector kernel) (r : Report)
      → let (p, c') =
          move_all kernel num_sources
            (pos id)
            ((x, y) ∷ ms)
            (record { x_delta = 0; y_delta = 0 }, c) in
        (test_bit (bits c'.event) id ≡ 1)
        × (report_filler p r ≡ (
          record { x_delta = 0; y_delta = 0 },
          record r {
            x_delta = wrap 12 (sum_x (pos 0) ((x, y) ∷ ms) +ℤ pos r.x_delta);
            y_delta = wrap 12 (sum_y (pos 0) ((x, y) ∷ ms) +ℤ pos r.y_delta);
          },
        ))
  unfolding report_filler cmd_report_move
  report_filler-moves x y ms c r =
      let (hx, hy, n) =
        moves_lem ms _ (notify_data_available kernel (pos id) c) (pos 0 +ℤ x) (pos 0 +ℤ y) refl refl
          (bit-notify c) in
      (
        n,
        rw (hx, hy)
            (rw
              (
                wrap_add (sum_x (pos 0 +ℤ x) ms) r.x_delta,
                wrap_add (sum_y (pos 0 +ℤ y) ms) r.y_delta,
              )
              refl),
      )
