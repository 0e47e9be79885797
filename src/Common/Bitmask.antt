-- ===== src/Common/Bitmask.antt =====
-- programs/common/src/bitmask.rs: bit masks stored as bytes.
pub mod Bytewise
pub mod Contents
pub mod Queries
mod Tests
use asseto_solana_programs.Prelude.{
  ℕ, ◌+◌, ◌-◌, ◌*◌, ◌/◌, ◌%◌, ◌^◌, bit_and, bit_or, Bool, Option, none, some, List, [], ◌∷◌, Bytes,
  length, get_or, set, ltb, ◌==◌, if◌then◌else◌,
}

-- `Result<T, u16>`: the error is the offending position.
pub data Checked (A : Type 0) : Type 0 where
  within : A → Checked A
  past : ℕ → Checked A

abbrev pub mask_chunk_bits : ℕ
mask_chunk_bits = 8

-- The byte and the bit of a position, in a mask of `mask_len` bytes.
unfoldable pub locate : ℕ → ℕ → Checked (ℕ × ℕ)
locate mask_len position =
    if ltb position (mask_len * mask_chunk_bits)
    then within (position / mask_chunk_bits, position % mask_chunk_bits)
    else past position

-- `mask[byte] |= 1 << bit`
abbrev pub or_bit : Bytes → ℕ → ℕ → Bytes
or_bit mask byte bit = set mask byte (bit_or (get_or mask byte 0) (2 ^ bit))

-- `mask[byte] &= !(1 << bit)`; `!` on a `u8` takes the number from 255.
abbrev pub and_not_bit : Bytes → ℕ → ℕ → Bytes
and_not_bit mask byte bit = set mask byte (bit_and (get_or mask byte 0) (255 - 2 ^ bit))

-- The mask as the loop leaves it, and the position of the error.
unfoldable pub set_bits : Bytes → List ℕ → Bytes × Option ℕ
unfolding locate
set_bits mask [] = (mask, none)
set_bits mask (position ∷ positions) = elim (locate (length mask) position) [
  | within (byte, bit) ↦ set_bits (or_bit mask byte bit) positions
  | past p ↦ (mask, some p)
]

unfoldable pub clear_bits : Bytes → List ℕ → Bytes × Option ℕ
unfolding locate
clear_bits mask [] = (mask, none)
clear_bits mask (position ∷ positions) = elim (locate (length mask) position) [
  | within (byte, bit) ↦ clear_bits (and_not_bit mask byte bit) positions
  | past p ↦ (mask, some p)
]

unfoldable pub is_set : Bytes → ℕ → Checked Bool
unfolding locate
is_set mask position = elim (locate (length mask) position) [
  | within (byte, bit) ↦ within (bit_and (get_or mask byte 0 / 2 ^ bit) 1 == 1)
  | past p ↦ past p
]
