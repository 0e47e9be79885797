-- ===== src/Treasury/Guard.antt =====
-- What guards the payment token while claims are open, and that a coupon is paid once.
use asseto_solana_programs.Prelude.{
  ℕ, ⊤, ◌<◌, ◌≡◌, ap, sym, subst, ◌∙◌, ◌⊎◌, inl, inr, true, Option, none, some, List, arith, ◌==◌,
  Bytes, Bool-cases,
}
use asseto_solana_programs.Prelude.Int.{ℤ, ◌≤ℤ◌, leb_ℤ}
use asseto_solana_programs.Errors.{
  external, constraint_failed, treasury, coupon_not_mature, ok, require, >>=-eq-ok, >>-eq-ok,
  ok_inj,
}
use asseto_solana_programs.Common.ProgramIds.{Pubkey, treasury_program_id}
use asseto_solana_programs.Common.PdaSeeds.{Runtime, treasury_authority_seeds}
use asseto_solana_programs.Common.State.{loaded, data_is_empty}
use asseto_solana_programs.Common.Guards.{AssetAccounts, require_authorized}
use asseto_solana_programs.Common.Authorized.{IsAuthorized, require_authorized-IsAuthorized}
use asseto_solana_programs.Common.Merkle.{verify_balance_proof, require_balance_proof}
use asseto_solana_programs.Common.Token.{TokenProgram}
use asseto_solana_programs.Common.Roles.{role_treasurer}
use asseto_solana_programs.Common.Functionalities.{treasury_pay_coupon, treasury_set_payment_token}
use asseto_solana_programs.Treasury.{
  TreasuryConfig, CouponPaidMarker, PayCoupon, require_no_claims, config_or_init, set_payment_token,
  payout, pay_coupon,
}

-- The last coupon that was paid is not the newest one, or there is no such coupon or no count.
abbrev pub IsUnlocked : ℕ → Option ℕ → Type 0
IsUnlocked locked_id none = ⊤
IsUnlocked locked_id (some count) = (locked_id ≡ 0) ⊎ (locked_id < count)

IsUnlocked-of :
    (locked_id : ℕ) (current_count : Option ℕ)
    → require_no_claims locked_id current_count ≡ ok tt
    → IsUnlocked locked_id current_count
unfolding require_no_claims
IsUnlocked-of locked_id none h = tt
IsUnlocked-of locked_id (some count) h = elim (Bool-cases (locked_id == 0)) [
  | inl z ↦ inl (ground (arith, z))
  | inr nz ↦ inr (ground (arith, nz, h))
]

-- The payment token is changed by a treasurer only, only while the coupon that was last paid is not the
-- newest, and the record of that coupon stays.
pub set_payment_token-IsUnlocked :
    (a : AssetAccounts) (bump : ℕ) (config : TreasuryConfig) (current_count : Option ℕ)
    (payment_mint : Pubkey) (decimals : ℕ) {config' : TreasuryConfig}
    → set_payment_token a bump (loaded config) current_count payment_mint decimals ≡ ok config'
    → (require_authorized a role_treasurer treasury_set_payment_token ≡ ok tt)
      × IsUnlocked config.locked_for_coupon_id current_count
      × (config'.locked_for_coupon_id ≡ config.locked_for_coupon_id)
      × (config'.payment_mint ≡ payment_mint)
      × (config'.payment_mint_decimals ≡ decimals)
unfolding set_payment_token config_or_init
set_payment_token-IsUnlocked a bump config current_count payment_mint decimals {config'} h =
    let (auth, h1) =
      >>-eq-ok (require_authorized a role_treasurer treasury_set_payment_token) _ {b = config'} h in
    let (guard, written) =
      >>-eq-ok (require_no_claims config.locked_for_coupon_id current_count) _ {b = config'} h1 in
    (
      auth,
      IsUnlocked-of config.locked_for_coupon_id current_count guard,
      ground (arith, written),
      ground (arith, written),
      ground (arith, written),
    )

module _ (rt : Runtime) (tp : TokenProgram) (keccak : Bytes → Bytes) where
  open tp use {Ledger}

  pub pay_coupon_lem :
      (now : ℤ) (a : AssetAccounts) (c : PayCoupon) (coupon_id : ℕ) (account : Pubkey) (balance : ℕ)
      (proof : List Bytes) (ledger : Ledger) {config' : TreasuryConfig} {marker : CouponPaidMarker}
      {ledger' : Ledger}
      → pay_coupon rt tp keccak now a c coupon_id account balance proof ledger
        ≡ ok (config', marker, ledger')
      → (data_is_empty c.coupon_paid ≡ true)
        × IsAuthorized a role_treasurer treasury_pay_coupon
        × (c.coupon.payment_date ≤ℤ now)
        × (verify_balance_proof keccak proof c.merkle_root account balance ≡ true)
        × (payout c.bond_terms c.coupon c.mint_decimals c.treasury_config.payment_mint_decimals
              balance
            ≡ ok marker.amount)
        × (tp.transfer_checked c.treasury_token_account c.treasury_config.payment_mint
              c.holder_payment_account
              (rt.find_program_address (treasury_authority_seeds c.mint) treasury_program_id).0
              marker.amount
              c.treasury_config.payment_mint_decimals
              ledger
            ≡ ok ledger')
        × (config' ≡ record c.treasury_config { locked_for_coupon_id = coupon_id })
  unfolding pay_coupon require_balance_proof
  pay_coupon_lem now a c coupon_id account balance proof ledger {config'} {marker} {ledger'} h =
      let out : TreasuryConfig × CouponPaidMarker × Ledger = (config', marker, ledger') in
      let (fresh, h1) =
        >>-eq-ok (require (data_is_empty c.coupon_paid) (external constraint_failed)) _ {b = out}
          h in
      let (auth, h2) =
        >>-eq-ok (require_authorized a role_treasurer treasury_pay_coupon) _ {b = out} h1 in
      let (mature, h3) =
        >>-eq-ok (require (leb_ℤ c.coupon.payment_date now) (treasury coupon_not_mature)) _
          {b = out} h2 in
      let (proved, h4) =
        >>-eq-ok (require_balance_proof keccak proof c.merkle_root account balance) _ {b = out}
          h3 in
      let (amount, due, h5) =
        >>=-eq-ok
          (payout c.bond_terms c.coupon c.mint_decimals c.treasury_config.payment_mint_decimals
            balance)
          _ {b = out} h4 in
      let (l, sent, written) =
        >>=-eq-ok
          (tp.transfer_checked c.treasury_token_account c.treasury_config.payment_mint
            c.holder_payment_account
            (rt.find_program_address (treasury_authority_seeds c.mint) treasury_program_id).0 amount
            c.treasury_config.payment_mint_decimals ledger)
          _ {b = out} h5 in
      (
        ground (arith, fresh),
        require_authorized-IsAuthorized a role_treasurer treasury_pay_coupon auth,
        ground (arith, mature),
        ground (arith, proved),
        due ∙ ap (λ r. ok r.1.amount) (ok_inj written),
        subst
            (λ r.
              tp.transfer_checked c.treasury_token_account c.treasury_config.payment_mint
                c.holder_payment_account
                (rt.find_program_address (treasury_authority_seeds c.mint) treasury_program_id).0
                r.1.amount c.treasury_config.payment_mint_decimals ledger
              ≡ ok r.2)
            (ok_inj written) sent,
        sym (ap (λ r. r.0) (ok_inj written)),
      )
