-- ===== src/Treasury/Lock.antt =====
-- The lock of the payment token after a payment.
use asseto_solana_programs.Prelude.{
  ℕ, ◌≡◌, refl, ap, ◌||◌, inl, inr, some, List, Bytes, ltb, ◌==◌, if◌then◌else◌, Bool-cases,
}
use asseto_solana_programs.Prelude.Int.{ℤ}
use asseto_solana_programs.Errors.{treasury, claims_in_progress, ok, err}
use asseto_solana_programs.Common.ProgramIds.{Pubkey}
use asseto_solana_programs.Common.PdaSeeds.{Runtime}
use asseto_solana_programs.Common.State.{loaded}
use asseto_solana_programs.Common.Guards.{AssetAccounts, require_authorized}
use asseto_solana_programs.Common.Token.{TokenProgram}
use asseto_solana_programs.Common.Roles.{role_treasurer}
use asseto_solana_programs.Common.Functionalities.{treasury_set_payment_token}
use asseto_solana_programs.Treasury.{
  TreasuryConfig, CouponPaidMarker, PayCoupon, require_no_claims, config_or_init, set_payment_token,
  pay_coupon,
}
use asseto_solana_programs.Treasury.Guard.{pay_coupon_lem}

-- What set_payment_token does under a lock, for a caller that is authorised.
set_payment_token-locked :
    (a : AssetAccounts) (bump : ℕ) (config : TreasuryConfig) (locked_id count : ℕ)
    (payment_mint : Pubkey) (decimals : ℕ)
    → require_authorized a role_treasurer treasury_set_payment_token ≡ ok tt
    → config.locked_for_coupon_id ≡ locked_id
    → set_payment_token a bump (loaded config) (some count) payment_mint decimals ≡ (
        if (locked_id == 0) || ltb locked_id count
        then ok (record config {
          bump = bump;
          payment_mint = payment_mint;
          payment_mint_decimals = decimals;
        })
        else err (treasury claims_in_progress))
unfolding set_payment_token config_or_init require_no_claims
set_payment_token-locked a bump config locked_id count payment_mint decimals auth locked =
    elim (Bool-cases (locked_id == 0)) [
      | inl h ↦ rw (auth, locked, h) refl
      | inr h ↦ elim (Bool-cases (ltb locked_id count)) [
        | inl h' ↦ rw (auth, locked, h, h') refl
        | inr h' ↦ rw (auth, locked, h, h') refl
      ]
    ]

module _ (rt : Runtime) (tp : TokenProgram) (keccak : Bytes → Bytes) where
  open tp use {Ledger}

  -- Right after a payment of a coupon, a treasurer's change of the payment token succeeds exactly if that
  -- coupon is not the newest of the count, or is coupon 0, and fails with `ClaimsInProgress` otherwise. So
  -- the payment of an older coupon allows the change, whichever coupon the token was locked for before.
  pub set_payment_token-pay_coupon :
      (now : ℤ) (a : AssetAccounts) (c : PayCoupon) (coupon_id : ℕ) (account : Pubkey) (balance : ℕ)
      (proof : List Bytes) (ledger : Ledger) {config' : TreasuryConfig} {marker : CouponPaidMarker}
      {ledger' : Ledger} (caller : AssetAccounts) (bump count : ℕ) (payment_mint : Pubkey)
      (decimals : ℕ)
      → pay_coupon rt tp keccak now a c coupon_id account balance proof ledger
        ≡ ok (config', marker, ledger')
      → require_authorized caller role_treasurer treasury_set_payment_token ≡ ok tt
      → set_payment_token caller bump (loaded config') (some count) payment_mint decimals ≡ (
          if (coupon_id == 0) || ltb coupon_id count
          then ok (record config' {
            bump = bump;
            payment_mint = payment_mint;
            payment_mint_decimals = decimals;
          })
          else err (treasury claims_in_progress))
  set_payment_token-pay_coupon now a c coupon_id account balance proof ledger {config'} caller bump
        count payment_mint decimals paid auth =
      let (_, _, _, _, _, _, changed) =
        pay_coupon_lem rt tp keccak now a c coupon_id account balance proof ledger paid in
      set_payment_token-locked caller bump config' coupon_id count payment_mint decimals auth
        (ap (λ x. x.locked_for_coupon_id) changed)
