-- ===== src/Common/Bitmask/Contents.antt =====
-- What a mask holds after `set_bits` and `clear_bits`, position by position.
use asseto_solana_programs.Prelude.{
  ℕ, zero, suc, ◌*◌, ◌-◌, ◌/◌, ◌%◌, ◌^◌, ◌<◌, bit_and, bit_or, ◌≡◌, refl, ◌∙◌, inl, inr, Bool, true,
  false, not, ◌&&◌, ◌||◌, Option, none, some, List, [], ◌∷◌, arith, Bytes, All, length, get_or, set,
  length-set, get_or-set_self, get_or-set_ne, ltb, ◌==◌, if◌then◌else◌, Bool-cases,
}
use asseto_solana_programs.Common.Bitmask.{
  within, or_bit, and_not_bit, set_bits, clear_bits, is_set,
}
use asseto_solana_programs.Common.Bitmask.Bytewise.{
  bit, bit_or-lt, bit_and-lt, bit-bit_or, bit-bit_and,
}

abbrev pub IsMask : Bytes → Type 0
IsMask = All (λ x. x < 256)

get_or-lt : (mask : Bytes) (i : ℕ) → IsMask mask → get_or mask i 0 < 256
get_or-lt [] i h = omega arith
get_or-lt (x ∷ mask) zero h = h.0
get_or-lt (x ∷ mask) (suc i) h = get_or-lt mask i h.1

set-IsMask : (mask : Bytes) (i v : ℕ) → IsMask mask → v < 256 → IsMask (set mask i v)
set-IsMask [] i v h lt = tt
set-IsMask (x ∷ mask) zero v h lt = (lt, h.1)
set-IsMask (x ∷ mask) (suc i) v h lt = (h.0, set-IsMask mask i v h.1 lt)

-- Whether the mask has position `q` set.
abbrev pub holds : Bytes → ℕ → Bool
holds mask q = bit (get_or mask (q / 8) 0) (q % 8)

pub is_set-holds :
    (mask : Bytes) (q : ℕ) → q < length mask * 8 → is_set mask q ≡ within (holds mask q)
unfolding is_set
is_set-holds mask q h = ground arith

module _ (mask : Bytes) (p q : ℕ) (valid : IsMask mask) (hp : p < length mask * 8) where
  holds-or_bit : holds (or_bit mask (p / 8) (p % 8)) q ≡ ((p == q) || holds mask q)
  holds-or_bit = elim (Bool-cases ((p / 8) == (q / 8))) [
    | inl same_byte ↦ ground (
      arith,
      get_or-set_self mask (p / 8) (bit_or (get_or mask (p / 8) 0) (2 ^ (p % 8))) 0,
      bit-bit_or (get_or mask (p / 8) 0) (p % 8) (q % 8) (get_or-lt mask (p / 8) valid),
    )
    | inr other ↦
        ground (
          arith,
          get_or-set_ne mask (p / 8) (q / 8) (bit_or (get_or mask (p / 8) 0) (2 ^ (p % 8))) 0,
        )
  ]

  holds-and_not_bit : holds (and_not_bit mask (p / 8) (p % 8)) q ≡ (not (p == q) && holds mask q)
  holds-and_not_bit = elim (Bool-cases ((p / 8) == (q / 8))) [
    | inl same_byte ↦ ground (
      arith,
      get_or-set_self mask (p / 8) (bit_and (get_or mask (p / 8) 0) (255 - 2 ^ (p % 8))) 0,
      bit-bit_and (get_or mask (p / 8) 0) (p % 8) (q % 8) (get_or-lt mask (p / 8) valid),
    )
    | inr other ↦ ground (
      arith,
      get_or-set_ne mask (p / 8) (q / 8) (bit_and (get_or mask (p / 8) 0) (255 - 2 ^ (p % 8))) 0,
    )
  ]

-- The positions up to the first that is past the capacity of `n` bytes, and that one.
abbrev pub accepted : ℕ → List ℕ → List ℕ
accepted n [] = []
accepted n (p ∷ ps) = if ltb p (n * 8) then p ∷ accepted n ps else []

abbrev pub first_past : ℕ → List ℕ → Option ℕ
first_past n [] = none
first_past n (p ∷ ps) = if ltb p (n * 8) then first_past n ps else some p

abbrev pub contains : ℕ → List ℕ → Bool
contains q [] = false
contains q (p ∷ ps) = (p == q) || contains q ps

-- A mask loop: its error and what it leaves in the mask.
pub record Loop (mask : Bytes) (ps : List ℕ) (r : Bytes × Option ℕ) (after : ℕ → Bool)
    : Type 0 where
  pub valid : IsMask r.0
  pub same_length : length r.0 ≡ length mask
  pub error : r.1 ≡ first_past (length mask) ps
  pub bits : (q : ℕ) → holds r.0 q ≡ after q

abbrev pub set_after : Bytes → List ℕ → ℕ → Bool
set_after mask ps q = contains q (accepted (length mask) ps) || holds mask q

abbrev pub clear_after : Bytes → List ℕ → ℕ → Bool
clear_after mask ps q = not (contains q (accepted (length mask) ps)) && holds mask q

module _ (mask : Bytes) (p : ℕ) (valid : IsMask mask) where
  or_bit-IsMask : IsMask (or_bit mask (p / 8) (p % 8))
  or_bit-IsMask =
      set-IsMask mask (p / 8) _ valid
        (bit_or-lt (get_or mask (p / 8) 0) (p % 8) (get_or-lt mask (p / 8) valid) (omega arith))

  and_not_bit-IsMask : IsMask (and_not_bit mask (p / 8) (p % 8))
  and_not_bit-IsMask =
      set-IsMask mask (p / 8) _ valid
        (bit_and-lt (get_or mask (p / 8) 0) (p % 8) (get_or-lt mask (p / 8) valid) (omega arith))

  -- One round of a loop, over a byte array of the same length.
  Loop-cons :
      (ps : List ℕ) (mask' : Bytes) (r : Bytes × Option ℕ) (after after' : ℕ → Bool)
      → p < length mask * 8
      → length mask' ≡ length mask
      → Loop mask' ps r after'
      → ((q : ℕ) → after' q ≡ after q)
      → Loop mask (p ∷ ps) r after
  Loop-cons ps mask' r after after' hp len rest same = record {
    valid = rest.valid;
    same_length = rest.same_length ∙ len;
    error = ground (arith, rest.error, len);
    bits = λ q. rest.bits q ∙ same q;
  }

module _ (mask : Bytes) (p : ℕ) (ps : List ℕ) where
  set_bits-within :
      ltb p (length mask * 8) ≡ true
      → set_bits mask (p ∷ ps) ≡ set_bits (or_bit mask (p / 8) (p % 8)) ps
  unfolding set_bits
  set_bits-within h = ground arith

  set_bits-past : ltb p (length mask * 8) ≡ false → set_bits mask (p ∷ ps) ≡ (mask, some p)
  unfolding set_bits
  set_bits-past h = ground arith

pub set_bits-Loop :
    (mask : Bytes) (ps : List ℕ) → IsMask mask → Loop mask ps (set_bits mask ps) (set_after mask ps)
set_bits-Loop mask [] valid =
    unfold set_bits in record { valid = valid; same_length = refl; error = refl; bits = λ q. refl }
set_bits-Loop mask (p ∷ ps) valid = elim (Bool-cases (ltb p (length mask * 8))) [
  | inl here ↦
      let mask' = or_bit mask (p / 8) (p % 8) in
      let len = length-set mask (p / 8) (bit_or (get_or mask (p / 8) 0) (2 ^ (p % 8))) in
      rw (set_bits-within mask p ps here) (
        Loop-cons mask p valid ps mask' (set_bits mask' ps) _ (set_after mask' ps) (ground arith)
          len (set_bits-Loop mask' ps (or_bit-IsMask mask p valid))
          (λ q. ground (arith, here, len, holds-or_bit mask p q valid)))
  | inr over ↦
      rw (set_bits-past mask p ps over)
        (record { valid = valid; same_length = refl; error = rw over; bits = λ q. rw over })
]

module _ (mask : Bytes) (p : ℕ) (ps : List ℕ) where
  clear_bits-within :
      ltb p (length mask * 8) ≡ true
      → clear_bits mask (p ∷ ps) ≡ clear_bits (and_not_bit mask (p / 8) (p % 8)) ps
  unfolding clear_bits
  clear_bits-within h = ground arith

  clear_bits-past : ltb p (length mask * 8) ≡ false → clear_bits mask (p ∷ ps) ≡ (mask, some p)
  unfolding clear_bits
  clear_bits-past h = ground arith

pub clear_bits-Loop :
    (mask : Bytes) (ps : List ℕ)
    → IsMask mask
    → Loop mask ps (clear_bits mask ps) (clear_after mask ps)
clear_bits-Loop mask [] valid =
    unfold clear_bits in
    record { valid = valid; same_length = refl; error = refl; bits = λ q. refl }
clear_bits-Loop mask (p ∷ ps) valid = elim (Bool-cases (ltb p (length mask * 8))) [
  | inl here ↦
      let mask' = and_not_bit mask (p / 8) (p % 8) in
      let len = length-set mask (p / 8) (bit_and (get_or mask (p / 8) 0) (255 - 2 ^ (p % 8))) in
      rw (clear_bits-within mask p ps here) (
        Loop-cons mask p valid ps mask' (clear_bits mask' ps) _ (clear_after mask' ps)
          (ground arith) len (clear_bits-Loop mask' ps (and_not_bit-IsMask mask p valid))
          (λ q. ground (arith, here, len, holds-and_not_bit mask p q valid)))
  | inr over ↦
      rw (clear_bits-past mask p ps over)
        (record { valid = valid; same_length = refl; error = rw over; bits = λ q. rw over })
]
