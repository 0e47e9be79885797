-- ===== src/NominalValue.antt =====
-- programs/nominal-value/src: the value that is published for an asset, with the time since when.
pub mod History
mod Tests
use asseto_solana_programs.Prelude.{ℕ, ⊤, Bytes}
use asseto_solana_programs.Prelude.Int.{ℤ, pos, ltb_ℤ, eqb_ℤ}
use asseto_solana_programs.Errors.{
  external, constraint_failed, nominal_value, invalid_timestamp,
  effective_datetime_not_after_current, effective_datetime_not_in_past, effective_datetime_mismatch,
  Result, ok, ◌>>=◌, ◌>>◌, require,
}
use asseto_solana_programs.Common.State.{AccountInfo, data_is_empty}
use asseto_solana_programs.Common.Guards.{AssetAccounts, require_authorized}
use asseto_solana_programs.Common.Roles.{role_admin, role_nominal_value}
use asseto_solana_programs.Common.Functionalities.{
  nominal_value_initialize, nominal_value_publish, nominal_value_republish,
}

pub data NominalValuePublishType : Type 0 where
  unit total : NominalValuePublishType

pub record NominalValue : Type 0 where
  pub bump : ℕ
  pub nominal_value_currency : Bytes
  pub nominal_value_publish_type : NominalValuePublishType
  pub nominal_value_decimals : ℕ
  pub nominal_value : ℕ
  pub effective_datetime : ℤ

-- `init`: the account must not be there.
unfoldable pub initialize_nominal_value :
    AssetAccounts
    → ℕ
    → AccountInfo NominalValue
    → ℕ
    → Bytes
    → NominalValuePublishType
    → Result NominalValue
initialize_nominal_value a bump nominal_value_pda decimals currency publish_type = do
  require (data_is_empty nominal_value_pda) (external constraint_failed)
  require_authorized a role_admin nominal_value_initialize
  ok (record {
    bump = bump;
    nominal_value_currency = currency;
    nominal_value_publish_type = publish_type;
    nominal_value_decimals = decimals;
    nominal_value = 0;
    effective_datetime = pos 0;
  })

unfoldable pub publish_nominal_value :
    ℤ → AssetAccounts → NominalValue → ℕ → ℤ → Result NominalValue
publish_nominal_value now a account value effective_datetime = do
  require_authorized a role_nominal_value nominal_value_publish
  require (ltb_ℤ (pos 0) effective_datetime) (nominal_value invalid_timestamp)
  require (ltb_ℤ account.effective_datetime effective_datetime)
      (nominal_value effective_datetime_not_after_current)
  require (ltb_ℤ effective_datetime now) (nominal_value effective_datetime_not_in_past)
  ok (record account { nominal_value = value; effective_datetime = effective_datetime })

unfoldable pub republish_nominal_value : AssetAccounts → NominalValue → ℕ → ℤ → Result NominalValue
republish_nominal_value a account value effective_datetime = do
  require_authorized a role_nominal_value nominal_value_republish
  require (ltb_ℤ (pos 0) effective_datetime) (nominal_value invalid_timestamp)
  require (eqb_ℤ effective_datetime account.effective_datetime)
      (nominal_value effective_datetime_mismatch)
  ok (record account { nominal_value = value })
