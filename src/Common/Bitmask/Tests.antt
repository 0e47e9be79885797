-- ===== src/Common/Bitmask/Tests.antt =====
-- Masks of two bytes.
use asseto_solana_programs.Prelude.{◌≡◌, refl, true, ◌||◌, some, [], ◌∷◌, arith, Bytes, length}
use asseto_solana_programs.Common.Bitmask.{within, locate, set_bits, is_set}
use asseto_solana_programs.Common.Bitmask.Contents.{accepted, contains}
use asseto_solana_programs.Common.Bitmask.Queries.{is_set-set_bits}

abbrev mask : Bytes
mask = 0 ∷ 128 ∷ []

listed : is_set mask 15 ≡ within true
unfolding is_set locate
listed = refl

is_set-set_bits_example :
    (is_set (set_bits mask (3 ∷ 16 ∷ 4 ∷ [])).0 15
      ≡ within (contains 15 (accepted 2 (3 ∷ 16 ∷ 4 ∷ [])) || true))
    × ((set_bits mask (3 ∷ 16 ∷ 4 ∷ [])).1 ≡ some 16)
    × (length (set_bits mask (3 ∷ 16 ∷ 4 ∷ [])).0 ≡ 2)
is_set-set_bits_example =
    is_set-set_bits mask (3 ∷ 16 ∷ 4 ∷ []) 15 true (omega arith, (omega arith, tt)) listed
