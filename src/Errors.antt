-- ===== src/Errors.antt =====
-- The error codes of every program (programs/*/src/errors.rs and CommonError of
-- programs/common/src/lib.rs), and the `Result` that a handler returns.
use asseto_solana_programs.Prelude.{
  ⊤, Bool, true, false, Option, none, some, ◌≡◌, refl, ◌⊎◌, inl, inr,
}

pub data CommonError : Type 0 where
  mint_paused deactivated functionality_out_of_bounds functionality_not_supported_error :
      CommonError
  invalid_asset_configuration_data invalid_hold_position_data : CommonError
  asset_class_version_not_finalized role_out_of_bounds missing_role : CommonError
  control_list_pda_mismatch insufficient_spendable_balance : CommonError
  hold_position_pda_mismatch invalid_merkle_proof : CommonError

pub data HoldError : Type 0 where
  zero_amount expiration_in_the_past hold_id_mismatch insufficient_available_balance : HoldError
  not_the_escrow hold_not_active hold_expired hold_not_expired amount_exceeds_hold : HoldError
  destination_mismatch held_amount_underflow : HoldError

pub data FreezeError : Type 0 where
  unauthorized account_frozen insufficient_unfrozen_balance empty_batch : FreezeError
  invalid_remaining_accounts freeze_state_pda_mismatch account_not_frozen : FreezeError
  account_not_partially_frozen invalid_freeze_amount : FreezeError

pub data TransferControlError : Type 0 where
  not_whitelisted blacklisted : TransferControlError

pub data TransferHookError : Type 0 where
  invalid_account_size not_transferring : TransferHookError

pub data CapError : Type 0 where
  max_supply_too_low max_supply_below_total_supply max_supply_exceeded max_supply_not_set : CapError

pub data MintError : Type 0 where
  empty_batch invalid_remaining_accounts amount_overflow : MintError

pub data OperationsError : Type 0 where
  empty_batch invalid_remaining_accounts unauthorized_hold_authority : OperationsError

pub data FactoryError : Type 0 where
  not_manager not_pending_manager factory_paused factory_not_paused not_owner : FactoryError
  not_pending_owner invalid_version version_not_draft functionality_out_of_bounds : FactoryError
  overflow : FactoryError

pub data AccessControlError : Type 0 where
  role_out_of_bounds unauthorized : AccessControlError

pub data CouponError : Type 0 where
  invalid_coupon_id invalid_coupon_period invalid_payment_date : CouponError
  inconsistent_rate_override coupon_counter_overflow : CouponError

pub data SnapshotError : Type 0 where
  unauthorized snapshot_counter_overflow : SnapshotError

pub data TreasuryError : Type 0 where
  negative_elapsed_time amount_overflow coupon_not_mature claims_in_progress : TreasuryError

pub data NominalValueError : Type 0 where
  invalid_timestamp effective_datetime_not_after_current : NominalValueError
  effective_datetime_not_in_past effective_datetime_mismatch : NominalValueError

pub data TransferError : Type 0 where
  empty_batch invalid_remaining_accounts batch_amount_overflow : TransferError

pub data DocumentError : Type 0 where
  empty_uri : DocumentError

pub data PauseError : Type 0 where
  already_paused not_paused : PauseError

pub data DeployError : Type 0 where
  mint_authority_must_be_signer invalid_mint_account_size : DeployError

pub data MetadataUpdateError : Type 0 where
  metadata_authority_must_be_signer : MetadataUpdateError

-- An error of code that is not in the repository: Anchor, the runtime, Token-2022.
pub data External : Type 0 where
  account_not_initialized constraint_failed invalid_account_data arithmetic_overflow : External
  insufficient_funds : External

pub data Error : Type 0 where
  common : CommonError → Error
  hold : HoldError → Error
  freeze : FreezeError → Error
  transfer_control : TransferControlError → Error
  transfer_hook : TransferHookError → Error
  supply_cap : CapError → Error
  mint : MintError → Error
  operations : OperationsError → Error
  factory : FactoryError → Error
  access_control : AccessControlError → Error
  coupon : CouponError → Error
  snapshot : SnapshotError → Error
  treasury : TreasuryError → Error
  nominal_value : NominalValueError → Error
  transfer : TransferError → Error
  document : DocumentError → Error
  pause : PauseError → Error
  deploy : DeployError → Error
  metadata_update : MetadataUpdateError → Error
  external : External → Error

-- `anchor_lang::Result<T>`
pub data Result {ℓ} (T : Type ℓ) : Type ℓ where
  err : Error → Result T
  ok : T → Result T

-- The operator `?`: an error ends the handler.
abbrev pub ◌>>=◌ {ℓ κ} : {T : Type ℓ} {U : Type κ} → Result T → (T → Result U) → Result U
err code >>= _ = err code
ok value >>= next = next value

infixl 5 ◌>>=◌ ◌>>◌
-- The same after a check, which has no value.
abbrev pub ◌>>◌ {ℓ} : {U : Type ℓ} → Result ⊤ → Result U → Result U
check >> rest = check >>= λ _. rest

-- Anchor's `require!`.
abbrev pub require : Bool → Error → Result ⊤
require true _ = ok tt
require false e = err e

abbrev pub ok_or {ℓ} : {A : Type ℓ} → Option A → Error → Result A
ok_or none e = err e
ok_or (some a) _ = ok a

-- What holds of the value, where there is one.
abbrev pub OnOk {ℓ κ} : {A : Type ℓ} → (A → Type κ) → Result A → Type κ
OnOk P (ok a) = P a
OnOk P (err _) = Unit

pub Result-cases {ℓ} :
    {A : Type ℓ} (r : Result A) → ((a : A) × (r ≡ ok a)) ⊎ ((e : Error) × (r ≡ err e))
Result-cases (ok a) = inl (a, refl)
Result-cases (err e) = inr (e, refl)

-- A chain that succeeds has succeeded at its first step.
pub >>=-eq-ok {ℓ κ} :
    {T : Type ℓ} {U : Type κ} (first : Result T) (next : T → Result U) {b : U}
    → (first >>= next) ≡ ok b
    → (value : T) × (first ≡ ok value) × (next value ≡ ok b)
>>=-eq-ok (err code) next h = cc
>>=-eq-ok (ok value) next h = (value, refl, h)

pub >>-eq-ok {ℓ} :
    {U : Type ℓ} (check : Result ⊤) (rest : Result U) {b : U}
    → (check >> rest) ≡ ok b
    → (check ≡ ok tt) × (rest ≡ ok b)
>>-eq-ok (err code) rest h = cc
>>-eq-ok (ok tt) rest h = (refl, h)

pub ok_inj : {A : Type 0} {a b : A} → ok a ≡ ok b → a ≡ b
ok_inj h = cc
