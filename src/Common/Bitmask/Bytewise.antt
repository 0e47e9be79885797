-- ===== src/Common/Bitmask/Bytewise.antt =====
-- One byte of a mask: what `|= 1 << bit` and `&= !(1 << bit)` do to each of its bits, checked over
-- every byte and every pair of bits.
use asseto_solana_programs.Prelude.{
  ℕ, zero, suc, ◌-◌, ◌/◌, ◌^◌, ◌<◌, bit_and, bit_or, ◌≡◌, refl, sym, subst, inl, inr, Bool-cases,
  Bool, true, not, ◌&&◌, ◌||◌, arith, ltb, ◌==◌,
}

-- A check of all numbers under `top`.
each : (ℕ → Bool) → ℕ → Bool
each check zero = true
each check (suc top) = each check top && check top

both : (b c : Bool) → (b && c) ≡ true → (b ≡ true) × (c ≡ true)
both b c h = (ground arith, ground arith)

each_at : (check : ℕ → Bool) (top : ℕ) → each check top ≡ true → (i : ℕ) → i < top → check i ≡ true
unfolding each
each_at check zero all i inside = absurd (omega (arith, inside))
each_at check (suc top) all i inside =
    let (lower, last) = both (each check top) (check top) all in
    elim (Bool-cases (i == top)) [
      | inl at ↦ let e : i ≡ top = ground (arith, at) in subst (λ k. check k ≡ true) (sym e) last
      | inr other ↦ each_at check top lower i (ground (arith, inside, other))
    ]

-- Whether bit `c` of the byte `x` is set.
abbrev pub bit : ℕ → ℕ → Bool
bit x c = bit_and (x / 2 ^ c) 1 == 1

abbrev same : Bool → Bool → Bool
same a b = (a && b) || (not a && not b)

same_eq : (a b : Bool) → same a b ≡ true → a ≡ b
same_eq a b h = ground arith

abbrev or_row : ℕ → ℕ → ℕ → Bool
or_row b c x = same (bit (bit_or x (2 ^ b)) c) ((b == c) || bit x c)

abbrev and_row : ℕ → ℕ → ℕ → Bool
and_row b c x = same (bit (bit_and x (255 - 2 ^ b)) c) (not (b == c) && bit x c)

abbrev range_row : ℕ → ℕ → Bool
range_row b x = ltb (bit_or x (2 ^ b)) 256 && ltb (bit_and x (255 - 2 ^ b)) 256

or_table : each (λ b. each (λ c. each (or_row b c) 256) 8) 8 ≡ true
unfolding each
or_table = refl

and_table : each (λ b. each (λ c. each (and_row b c) 256) 8) 8 ≡ true
unfolding each
and_table = refl

range_table : each (λ b. each (range_row b) 256) 8 ≡ true
unfolding each
range_table = refl

module _ (x b : ℕ) (hx : x < 256) (hb : b < 8) where
  in_range : range_row b x ≡ true
  in_range =
      each_at (range_row b) 256 (each_at (λ y. each (range_row y) 256) 8 range_table b hb) x hx

  pub bit_or-lt : bit_or x (2 ^ b) < 256
  bit_or-lt = ground (arith, in_range)

  pub bit_and-lt : bit_and x (255 - 2 ^ b) < 256
  bit_and-lt = ground (arith, in_range)

module _ (x b c : ℕ) (hx : x < 256) (hb : b < 8) (hc : c < 8) where
  pub bit-bit_or : bit (bit_or x (2 ^ b)) c ≡ ((b == c) || bit x c)
  bit-bit_or = same_eq _ _ (
      each_at (or_row b c) 256
        (each_at (λ y. each (or_row b y) 256) 8
          (each_at (λ z. each (λ y. each (or_row z y) 256) 8) 8 or_table b hb) c hc)
        x hx)

  pub bit-bit_and : bit (bit_and x (255 - 2 ^ b)) c ≡ (not (b == c) && bit x c)
  bit-bit_and = same_eq _ _ (
      each_at (and_row b c) 256
        (each_at (λ y. each (and_row b y) 256) 8
          (each_at (λ z. each (λ y. each (and_row z y) 256) 8) 8 and_table b hb) c hc)
        x hx)
