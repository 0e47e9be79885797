-- ===== src/Common/Merkle/Order.antt =====
-- The comparisons of byte arrays, and arrays cut at a known length.
use asseto_solana_programs.Prelude.{
  ℕ, zero, suc, ◌/◌, ◌%◌, ◌^◌, ◌<◌, ◌≡◌, refl, true, false, [], ◌∷◌, ◌++◌, arith, Bytes, le_bytes,
  length,
}
use native.Mathlib.Nat.{pow-suc}
use asseto_solana_programs.Common.Merkle.{lex_le, bytes_eq}

pub lex_le_total : (xs ys : Bytes) → lex_le xs ys ≡ false → lex_le ys xs ≡ true
unfolding lex_le
lex_le_total [] ys h = cc
lex_le_total (x ∷ xs) [] h = refl
lex_le_total (x ∷ xs) (y ∷ ys) h = ground (arith, lex_le_total xs ys)

pub lex_le_antisym : (xs ys : Bytes) → lex_le xs ys ≡ true → lex_le ys xs ≡ true → xs ≡ ys
unfolding lex_le
lex_le_antisym [] [] h k = refl
lex_le_antisym [] (y ∷ ys) h k = cc
lex_le_antisym (x ∷ xs) [] h k = cc
lex_le_antisym (x ∷ xs) (y ∷ ys) h k = ground (arith, lex_le_antisym xs ys)

pub bytes_eq-eq : (xs ys : Bytes) → bytes_eq xs ys ≡ true → xs ≡ ys
unfolding bytes_eq
bytes_eq-eq [] [] h = refl
bytes_eq-eq [] (y ∷ ys) h = cc
bytes_eq-eq (x ∷ xs) [] h = cc
bytes_eq-eq (x ∷ xs) (y ∷ ys) h = ground (arith, bytes_eq-eq xs ys)

pub bytes_eq_refl : (xs : Bytes) → bytes_eq xs xs ≡ true
unfolding bytes_eq
bytes_eq_refl [] = refl
bytes_eq_refl (x ∷ xs) = ground (arith, bytes_eq_refl xs)

-- Two concatenations whose first parts have one length agree part by part.
pub append-eq_parts :
    (cs bs xs ys : Bytes) → length cs ≡ length bs → cs ++ xs ≡ bs ++ ys → (cs ≡ bs) × (xs ≡ ys)
append-eq_parts [] [] xs ys l e = (refl, e)
append-eq_parts [] (b ∷ bs) xs ys l e = absurd (omega arith)
append-eq_parts (a ∷ cs) [] xs ys l e = absurd (omega arith)
append-eq_parts (a ∷ cs) (b ∷ bs) xs ys l e =
    let tails : cs ++ xs ≡ bs ++ ys = cc in
    let rest = append-eq_parts cs bs xs ys (omega arith) tails in
    let heads : a ≡ b = cc in (ground (arith, rest.0, heads), rest.1)

-- `to_le_bytes` loses nothing of a number that fits.
pub le_bytes_injective :
    (n x y : ℕ) → x < 256 ^ n → y < 256 ^ n → le_bytes n x ≡ le_bytes n y → x ≡ y
le_bytes_injective zero x y hx hy e = omega arith
le_bytes_injective (suc n) x y hx hy e =
    let low : x % 256 ≡ y % 256 = cc in
    let high : le_bytes n (x / 256) ≡ le_bytes n (y / 256) = cc in
    omega (arith, le_bytes_injective n (x / 256) (y / 256) (div_lt x hx) (div_lt y hy) high)
  where
    div_lt : (z : ℕ) → z < 256 ^ suc n → z / 256 < 256 ^ n
    div_lt z h = omega (arith, pow-suc 256 n)
