-- ===== src/Bitmask/Tests.antt =====
-- The loop over the set bits at a concrete mask.
use mymouse.Base.{ℕ, ◌≡◌, refl, List, [], ◌∷◌, ◌++◌}
use mymouse.Base.Bits.{test_bit, write_bit}
use mymouse.Bitmask.{get_next_bit_pos, for_each_bit}
use mymouse.Bitmask.Lowest.{lowest_bit, zeros}

abbrev note_down : ℕ → List ℕ → List ℕ
note_down pos seen = seen ++ pos ∷ []

bits_of_0x80000012 : for_each_bit lowest_bit note_down 32 0x80000012 [] ≡ 1 ∷ 4 ∷ 31 ∷ []
unfolding for_each_bit get_next_bit_pos zeros test_bit write_bit
bits_of_0x80000012 = refl
