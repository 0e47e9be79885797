-- ===== src/Common/Bitmask/Queries.antt =====
-- `set_bits` and `clear_bits` as seen through `is_set`.
use asseto_solana_programs.Prelude.{
  ℕ, ◌*◌, ◌<◌, ◌≡◌, ap, sym, ◌∙◌, Bool, not, ◌&&◌, ◌||◌, List, arith, Bytes, length,
}
use asseto_solana_programs.Common.Bitmask.{within, set_bits, clear_bits, is_set}
use asseto_solana_programs.Common.Bitmask.Contents.{
  IsMask, holds, is_set-holds, accepted, first_past, contains, set_bits-Loop, clear_bits-Loop,
}

within_injective : {A : Type 0} {a b : A} → within a ≡ within b → a ≡ b
within_injective h = cc

is_set_inside : (mask : Bytes) (q : ℕ) {b : Bool} → is_set mask q ≡ within b → q < length mask * 8
unfolding is_set
is_set_inside mask q h = ground arith

-- The value of a query that answers is what the mask holds.
is_set_value : (mask : Bytes) (q : ℕ) {b : Bool} → is_set mask q ≡ within b → b ≡ holds mask q
is_set_value mask q h = within_injective (sym h ∙ is_set-holds mask q (is_set_inside mask q h))

-- After `set_bits`, a position is set if it was, or if it is listed before the first position that is
-- past the mask; that position is the error, and the length stays.
pub is_set-set_bits :
    (mask : Bytes) (ps : List ℕ) (q : ℕ) (b : Bool)
    → IsMask mask
    → is_set mask q ≡ within b
    → (is_set (set_bits mask ps).0 q ≡ within (contains q (accepted (length mask) ps) || b))
      × ((set_bits mask ps).1 ≡ first_past (length mask) ps)
      × (length (set_bits mask ps).0 ≡ length mask)
is_set-set_bits mask ps q b valid h =
    let loop = set_bits-Loop mask ps valid in
    let inside = is_set_inside mask q h in
    (
      is_set-holds (set_bits mask ps).0 q (omega (arith, inside, loop.same_length))
          ∙ ap within (
              loop.bits q
              ∙ ap (λ c. contains q (accepted (length mask) ps) || c)
                  (sym (is_set_value mask q h))),
      loop.error,
      loop.same_length,
    )

-- After `clear_bits`, a position is set if it was and is not listed before the first position that is
-- past the mask; that position is the error, and the length stays.
pub is_set-clear_bits :
    (mask : Bytes) (ps : List ℕ) (q : ℕ) (b : Bool)
    → IsMask mask
    → is_set mask q ≡ within b
    → (is_set (clear_bits mask ps).0 q ≡ within (not (contains q (accepted (length mask) ps)) && b))
      × ((clear_bits mask ps).1 ≡ first_past (length mask) ps)
      × (length (clear_bits mask ps).0 ≡ length mask)
is_set-clear_bits mask ps q b valid h =
    let loop = clear_bits-Loop mask ps valid in
    let inside = is_set_inside mask q h in
    (
      is_set-holds (clear_bits mask ps).0 q (omega (arith, inside, loop.same_length))
          ∙ ap within (
              loop.bits q
              ∙ ap (λ c. not (contains q (accepted (length mask) ps)) && c)
                  (sym (is_set_value mask q h))),
      loop.error,
      loop.same_length,
    )
