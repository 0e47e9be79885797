-- ===== src/Treasury/Payout.antt =====
-- The amount of a coupon payment as exact arithmetic.
use asseto_solana_programs.Prelude.{
  ℕ, ◌+◌, ◌-◌, ◌*◌, ◌/◌, ◌^◌, ◌<◌, ◌≡◌, ap, sym, ◌∙◌, true, false, arith, ltb, leb, u64_mod,
  u128_mod, Bool-cases, inl, inr,
}
use asseto_solana_programs.Errors.{ok, >>=-eq-ok, ok_inj}
use asseto_solana_programs.Bond.{DayCountConvention, actual360, actual365, BondTerms}
use asseto_solana_programs.Coupon.{Coupon}
use asseto_solana_programs.Treasury.{
  day_count_days, seconds_per_day, effective_interest_rate, mul_u128, pow10_u128, to_u64,
  elapsed_seconds, scaled, payout,
}

mul_u128_eq : (a b : ℕ) {c : ℕ} → mul_u128 a b ≡ ok c → (c ≡ a * b) × (a * b < u128_mod)
unfolding mul_u128
mul_u128_eq a b h = elim (Bool-cases (ltb (a * b) u128_mod)) [
  | inl fits ↦ (ground (arith, fits, h), ground (arith, fits))
  | inr over ↦ absurd (ground (arith, over, h))
]

pow10_u128_eq : (e : ℕ) {c : ℕ} → pow10_u128 e ≡ ok c → c ≡ 10 ^ e
unfolding pow10_u128
pow10_u128_eq e h = elim (Bool-cases (ltb (10 ^ e) u128_mod)) [
  | inl fits ↦ ground (arith, fits, h)
  | inr over ↦ absurd (ground (arith, over, h))
]

to_u64_eq : (a : ℕ) {c : ℕ} → to_u64 a ≡ ok c → (c ≡ a) × (a < u64_mod)
unfolding to_u64
to_u64_eq a h = elim (Bool-cases (ltb a u64_mod)) [
  | inl fits ↦ (ground (arith, fits, h), ground (arith, fits))
  | inr over ↦ absurd (ground (arith, over, h))
]

unscaled : (n k : ℕ) → k ≡ 0 → n ≡ n * 10 ^ k
unscaled n k e = rw e (omega arith)

scaled_up :
    (num den p q : ℕ) {n d : ℕ}
    → leb q p ≡ true
    → scaled num den p q ≡ ok (n, d)
    → (n ≡ num * 10 ^ (p - q)) × (d ≡ den)
unfolding scaled
scaled_up num den p q {n} {d} e h =
    let out : ℕ × ℕ = (n, d) in
    let (mul, em, h1) = >>=-eq-ok (pow10_u128 (p - q)) _ {b = out} (rw (scaled, e) at h) in
    let (num', en, done) = >>=-eq-ok (mul_u128 num mul) _ {b = out} h1 in
    let pair = ok_inj done in
    (
      sym (ap (λ r. r.0) pair)
          ∙ (mul_u128_eq num mul en).0
          ∙ ap (λ m. num * m) (pow10_u128_eq (p - q) em),
      sym (ap (λ r. r.1) pair),
    )

scaled_down :
    (num den p q : ℕ) {n d : ℕ}
    → leb q p ≡ false
    → scaled num den p q ≡ ok (n, d)
    → (n ≡ num) × (d ≡ den * 10 ^ (q - p))
unfolding scaled
scaled_down num den p q {n} {d} e h =
    let out : ℕ × ℕ = (n, d) in
    let (div, em, h1) = >>=-eq-ok (pow10_u128 (q - p)) _ {b = out} (rw (scaled, e) at h) in
    let (den', en, done) = >>=-eq-ok (mul_u128 den div) _ {b = out} h1 in
    let pair = ok_inj done in
    (
      sym (ap (λ r. r.0) pair),
      sym (ap (λ r. r.1) pair)
          ∙ (mul_u128_eq den div en).0
          ∙ ap (λ m. den * m) (pow10_u128_eq (q - p) em),
    )

-- The two sides of the scaling at once: on ℕ one of the two exponents is 0.
scaled_eq :
    (num den p q : ℕ) {n d : ℕ}
    → scaled num den p q ≡ ok (n, d)
    → (n ≡ num * 10 ^ (p - q)) × (d ≡ den * 10 ^ (q - p))
scaled_eq num den p q h = elim (Bool-cases (leb q p)) [
  | inl enough ↦
      let (en, ed) = scaled_up num den p q enough h in
      (en, ed ∙ unscaled den (q - p) (ground (arith, enough)))
  | inr short ↦
      let (en, ed) = scaled_down num den p q short h in
      (en ∙ unscaled num (p - q) (ground (arith, short)), ed)
]

-- The exact amount: interest on the par value of `balance` over the elapsed part of a year, in units of
-- the payment token, rounded down once.
abbrev pub exact_payout : BondTerms → Coupon → ℕ → ℕ → ℕ → ℕ → ℕ
exact_payout bond coupon bond_mint_dec payment_mint_dec balance elapsed =
    let (rate, rate_dec) = effective_interest_rate bond coupon in
    let decs = rate_dec + bond_mint_dec + bond.par_value_decimals in
    rate
    * balance
    * bond.par_value
    * elapsed
    * 10 ^ (payment_mint_dec - decs)
    / (day_count_days bond.day_count_convention * seconds_per_day * 10 ^ (decs - payment_mint_dec))

quotient_eq : {n m d e : ℕ} → n ≡ m → d ≡ e → n / d ≡ m / e
quotient_eq {n = n} {e = e} p q = ap (λ x. n / x) q ∙ ap (λ x. x / e) p

-- A payout that is computed is the exact amount, rounded down once: no step before the division
-- rounds or wraps, and the amount fits the `u64` of a transfer.
pub payout_exact :
    (bond : BondTerms) (coupon : Coupon) (bond_mint_dec payment_mint_dec balance : ℕ) {amount : ℕ}
    → payout bond coupon bond_mint_dec payment_mint_dec balance ≡ ok amount
    → (elapsed : ℕ) × (elapsed_seconds coupon ≡ ok elapsed)
      × (amount ≡ exact_payout bond coupon bond_mint_dec payment_mint_dec balance elapsed)
      × (amount < u64_mod)
unfolding payout
payout_exact bond coupon bond_mint_dec payment_mint_dec balance {amount} h =
    let rates = effective_interest_rate bond coupon in
    let days = day_count_days bond.day_count_convention in
    let (elapsed, et, h1) = >>=-eq-ok (elapsed_seconds coupon) _ {b = amount} h in
    let (a, ea, h2) = >>=-eq-ok (mul_u128 rates.0 balance) _ {b = amount} h1 in
    let (b, eb, h3) = >>=-eq-ok (mul_u128 a bond.par_value) _ {b = amount} h2 in
    let (num, en, h4) = >>=-eq-ok (mul_u128 b elapsed) _ {b = amount} h3 in
    let (den, ed, h5) = >>=-eq-ok (mul_u128 days seconds_per_day) _ {b = amount} h4 in
    let ((n, d), ef, h6) =
      >>=-eq-ok
        (scaled num den payment_mint_dec (rates.1 + bond_mint_dec + bond.par_value_decimals)) _
        {b = amount} h5 in
    let (amount_eq, fits) = to_u64_eq (n / d) h6 in
    let (n_eq, d_eq) =
      scaled_eq num den payment_mint_dec (rates.1 + bond_mint_dec + bond.par_value_decimals) ef in
    let num_eq : num ≡ rates.0 * balance * bond.par_value * elapsed =
      (mul_u128_eq b elapsed en).0
      ∙ ap (λ x. x * elapsed)
          ((mul_u128_eq a bond.par_value eb).0
            ∙ ap (λ x. x * bond.par_value) (mul_u128_eq rates.0 balance ea).0) in
    let den_eq : den ≡ days * seconds_per_day = (mul_u128_eq days seconds_per_day ed).0 in
    let top =
      n_eq
      ∙ ap (λ x. x * 10 ^ (payment_mint_dec - (rates.1 + bond_mint_dec + bond.par_value_decimals)))
          num_eq in
    let bottom =
      d_eq
      ∙ ap (λ x. x * 10 ^ (rates.1 + bond_mint_dec + bond.par_value_decimals - payment_mint_dec))
          den_eq in
    (elapsed, et, amount_eq ∙ quotient_eq top bottom, rw amount_eq fits)

mul_u128_fits : (a b : ℕ) → a * b < u128_mod → mul_u128 a b ≡ ok (a * b)
unfolding mul_u128
mul_u128_fits a b fits = ground (arith, fits)

pow10_u128_fits : (e : ℕ) → 10 ^ e < u128_mod → pow10_u128 e ≡ ok (10 ^ e)
unfolding pow10_u128
pow10_u128_fits e fits = ground (arith, fits)

to_u64_fits : (a : ℕ) → a < u64_mod → to_u64 a ≡ ok a
unfolding to_u64
to_u64_fits a fits = ground (arith, fits)

scaled_fits :
    (num den p q : ℕ)
    → 10 ^ (p - q) < u128_mod
    → num * 10 ^ (p - q) < u128_mod
    → 10 ^ (q - p) < u128_mod
    → den * 10 ^ (q - p) < u128_mod
    → scaled num den p q ≡ ok (num * 10 ^ (p - q), den * 10 ^ (q - p))
unfolding scaled
scaled_fits num den p q a b c d = elim (Bool-cases (leb q p)) [
  | inl enough ↦
      rw (scaled, enough, pow10_u128_fits (p - q) a, mul_u128_fits num (10 ^ (p - q)) b)
        (ap (λ x. ok (num * 10 ^ (p - q), x)) (unscaled den (q - p) (ground (arith, enough))))
  | inr short ↦
      rw (scaled, short, pow10_u128_fits (q - p) c, mul_u128_fits den (10 ^ (q - p)) d)
        (ap (λ x. ok (x, den * 10 ^ (q - p))) (unscaled num (p - q) (ground (arith, short))))
]

-- The products of a payout fit a `u128`, one by one in the order in which they are taken.
abbrev pub Fits : BondTerms → Coupon → ℕ → ℕ → ℕ → ℕ → Type 0
Fits bond coupon bond_mint_dec payment_mint_dec balance elapsed =
    let (rate, rate_dec) = effective_interest_rate bond coupon in
    let decs = rate_dec + bond_mint_dec + bond.par_value_decimals in
    let num = rate * balance * bond.par_value * elapsed in
    (rate * balance < u128_mod)
    × (rate * balance * bond.par_value < u128_mod)
    × (num < u128_mod)
    × (10 ^ (payment_mint_dec - decs) < u128_mod)
    × (num * 10 ^ (payment_mint_dec - decs) < u128_mod)
    × (10 ^ (decs - payment_mint_dec) < u128_mod)
    × (day_count_days bond.day_count_convention * seconds_per_day * 10 ^ (decs - payment_mint_dec)
        < u128_mod)

days_fit : (d : DayCountConvention) → day_count_days d * seconds_per_day < u128_mod
days_fit actual360 = omega arith
days_fit actual365 = omega arith

-- Where the products fit and the exact amount is a `u64`, over a period of positive length, the payout
-- is that amount.
pub payout_succeeds :
    (bond : BondTerms) (coupon : Coupon) (bond_mint_dec payment_mint_dec balance elapsed : ℕ)
    → elapsed_seconds coupon ≡ ok elapsed
    → Fits bond coupon bond_mint_dec payment_mint_dec balance elapsed
    → exact_payout bond coupon bond_mint_dec payment_mint_dec balance elapsed < u64_mod
    → payout bond coupon bond_mint_dec payment_mint_dec balance
      ≡ ok (exact_payout bond coupon bond_mint_dec payment_mint_dec balance elapsed)
unfolding payout
payout_succeeds bond coupon bond_mint_dec payment_mint_dec balance elapsed positive
      (f1, f2, f3, f4, f5, f6, f7) f8 =
    let (rate, rate_dec) = effective_interest_rate bond coupon in
    let decs = rate_dec + bond_mint_dec + bond.par_value_decimals in
    let days = day_count_days bond.day_count_convention in
    rw
      (
        positive,
        mul_u128_fits rate balance f1,
        mul_u128_fits (rate * balance) bond.par_value f2,
        mul_u128_fits (rate * balance * bond.par_value) elapsed f3,
        mul_u128_fits days seconds_per_day (days_fit bond.day_count_convention),
        scaled_fits (rate * balance * bond.par_value * elapsed) (days * seconds_per_day)
            payment_mint_dec decs f4 f5 f6 f7,
      )
      (to_u64_fits _ f8)
