-- ===== src/Treasury.antt =====
-- programs/treasury/src: the payment token of a bond and the payment of its coupons.
pub mod Payout
pub mod Guard
pub mod History
pub mod Lock
mod Tests
use asseto_solana_programs.Prelude.{
  ℕ, zero, suc, ⊤, ◌+◌, ◌-◌, ◌*◌, ◌/◌, ◌^◌, Bool, true, false, not, Option, none, some, List, Bytes,
  ltb, leb, ◌==◌, if◌then◌else◌, u64_mod, u128_mod,
}
use asseto_solana_programs.Prelude.Int.{ℤ, pos, pos_part, ltb_ℤ, leb_ℤ, checked_sub_i64}
use asseto_solana_programs.Errors.{
  external, constraint_failed, treasury, TreasuryError, negative_elapsed_time, coupon_not_mature,
  claims_in_progress, Error, Result, ok, err, ◌>>=◌, ◌>>◌, require, ok_or,
}
use asseto_solana_programs.Common.ProgramIds.{Pubkey, treasury_program_id}
use asseto_solana_programs.Common.PdaSeeds.{Runtime, treasury_authority_seeds}
use asseto_solana_programs.Common.State.{AccountInfo, empty, loaded, unreadable, data_is_empty}
use asseto_solana_programs.Common.Guards.{AssetAccounts, require_authorized}
use asseto_solana_programs.Common.Merkle.{require_balance_proof}
use asseto_solana_programs.Common.Token.{TokenProgram}
use asseto_solana_programs.Common.Roles.{role_treasurer}
use asseto_solana_programs.Bond.{DayCountConvention, actual360, actual365, BondTerms}
use asseto_solana_programs.Coupon.{Coupon}
use asseto_solana_programs.Common.Functionalities.{treasury_pay_coupon, treasury_set_payment_token}

pub record TreasuryConfig : Type 0 where
  pub bump : ℕ
  pub payment_mint : Pubkey
  pub payment_mint_decimals : ℕ
  pub locked_for_coupon_id : ℕ

pub record CouponPaidMarker : Type 0 where
  pub bump : ℕ
  pub amount : ℕ

abbrev pub day_count_days : DayCountConvention → ℕ
day_count_days actual360 = 360
day_count_days actual365 = 365

abbrev pub seconds_per_day : ℕ
seconds_per_day = 86400

-- The coupon's own rate, if it has both parts of one.
unfoldable pub effective_interest_rate : BondTerms → Coupon → ℕ × ℕ
effective_interest_rate bond coupon = elim coupon.interest_rate_override [
  | none ↦ (bond.interest_rate, bond.interest_rate_decimals)
  | some rate ↦ elim coupon.interest_rate_override_decimals [
    | none ↦ (bond.interest_rate, bond.interest_rate_decimals)
    | some dec ↦ (rate, dec)
  ]
]

-- `u128::checked_mul`, `10u128.checked_pow`, `u64::try_from`, each with the error of the handler.
unfoldable pub mul_u128 : ℕ → ℕ → Result ℕ
mul_u128 a b =
    if ltb (a * b) u128_mod then ok (a * b) else err (treasury TreasuryError.amount_overflow)

unfoldable pub pow10_u128 : ℕ → Result ℕ
pow10_u128 e =
    if ltb (10 ^ e) u128_mod then ok (10 ^ e) else err (treasury TreasuryError.amount_overflow)

unfoldable pub to_u64 : ℕ → Result ℕ
to_u64 a = if ltb a u64_mod then ok a else err (treasury TreasuryError.amount_overflow)

unfoldable pub elapsed_seconds : Coupon → Result ℕ
elapsed_seconds coupon = do
  elapsed ←
      ok_or (checked_sub_i64 coupon.period_end_date coupon.period_start_date)
        (treasury negative_elapsed_time)
  require (ltb_ℤ (pos 0) elapsed) (treasury negative_elapsed_time)
  ok (pos_part elapsed)

-- The numerator and the denominator, scaled by the side on which the decimals are short.
unfoldable pub scaled : ℕ → ℕ → ℕ → ℕ → Result (ℕ × ℕ)
unfolding mul_u128 pow10_u128
scaled num den payment_decs positive_decs = elim (leb positive_decs payment_decs) [
  | true ↦ do
    mul ← pow10_u128 (payment_decs - positive_decs)
    num' ← mul_u128 num mul
    ok (num', den)
  | false ↦ do
    div ← pow10_u128 (positive_decs - payment_decs)
    den' ← mul_u128 den div
    ok (num, den')
]

-- The amount due on `balance`, in units of the payment token.
unfoldable pub payout : BondTerms → Coupon → ℕ → ℕ → ℕ → Result ℕ
unfolding mul_u128 to_u64 elapsed_seconds effective_interest_rate scaled
payout bond coupon bond_mint_dec payment_mint_dec balance = do
  elapsed ← elapsed_seconds coupon
  let (rate, rate_dec) = effective_interest_rate bond coupon
  a ← mul_u128 rate balance
  b ← mul_u128 a bond.par_value
  num ← mul_u128 b elapsed
  den ← mul_u128 (day_count_days bond.day_count_convention) seconds_per_day
  fraction ← scaled num den payment_mint_dec (rate_dec + bond_mint_dec + bond.par_value_decimals)
  to_u64 (fraction.0 / fraction.1)

-- A counter that is absent, or too short to hold a count, blocks nothing.
unfoldable pub require_no_claims : ℕ → Option ℕ → Result ⊤
require_no_claims locked_id none = ok tt
require_no_claims locked_id (some current_count) =
    if locked_id == 0
    then ok tt
    else require (ltb locked_id current_count) (treasury claims_in_progress)

-- A new account holds zeros.
unfoldable pub config_or_init : AccountInfo TreasuryConfig → Result TreasuryConfig
config_or_init empty =
    ok (record { bump = 0; payment_mint = 0; payment_mint_decimals = 0; locked_for_coupon_id = 0 })
config_or_init (loaded config) = ok config
config_or_init (unreadable e) = err e

-- `current_count` is what bytes 9 to 16 of the counter account read as, if it has them.
unfoldable pub set_payment_token :
    AssetAccounts → ℕ → AccountInfo TreasuryConfig → Option ℕ → Pubkey → ℕ → Result TreasuryConfig
unfolding require_no_claims config_or_init
set_payment_token a bump config_pda current_count payment_mint decimals = do
  config ← config_or_init config_pda
  require_authorized a role_treasurer treasury_set_payment_token
  require_no_claims config.locked_for_coupon_id current_count
  ok (record config { bump = bump; payment_mint = payment_mint; payment_mint_decimals = decimals })

pub record PayCoupon : Type 0 where
  pub mint : Pubkey
  pub mint_decimals : ℕ
  pub treasury_config : TreasuryConfig
  pub treasury_token_account : Pubkey
  pub holder_payment_account : Pubkey
  pub bond_terms : BondTerms
  pub coupon : Coupon
  pub merkle_root : Bytes
  pub coupon_paid : AccountInfo CouponPaidMarker
  pub bump_of_coupon_paid : ℕ

module _ (rt : Runtime) (tp : TokenProgram) (keccak : Bytes → Bytes) where
  open tp use {Ledger, transfer_checked}

  -- `coupon_paid` is an `init` account: one payment for a coupon and an account.
  unfoldable pub pay_coupon :
      ℤ
      → AssetAccounts
      → PayCoupon
      → ℕ
      → Pubkey
      → ℕ
      → List Bytes
      → Ledger
      → Result (TreasuryConfig × CouponPaidMarker × Ledger)
  unfolding payout
  pay_coupon now a c coupon_id account balance merkle_proof ledger = do
    require (data_is_empty c.coupon_paid) (external constraint_failed)
    require_authorized a role_treasurer treasury_pay_coupon
    require (leb_ℤ c.coupon.payment_date now) (treasury coupon_not_mature)
    require_balance_proof keccak merkle_proof c.merkle_root account balance
    amount ←
        payout c.bond_terms c.coupon c.mint_decimals c.treasury_config.payment_mint_decimals balance
    ledger' ←
        transfer_checked c.treasury_token_account c.treasury_config.payment_mint
          c.holder_payment_account
          (rt.find_program_address (treasury_authority_seeds c.mint) treasury_program_id).0 amount
          c.treasury_config.payment_mint_decimals ledger
    ok (
      record c.treasury_config { locked_for_coupon_id = coupon_id },
      record { bump = c.bump_of_coupon_paid; amount = amount },
      ledger',
    )
