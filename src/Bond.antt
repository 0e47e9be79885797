-- ===== src/Bond.antt =====
-- programs/bond/src: the terms of a bond.
use asseto_solana_programs.Prelude.{ℕ, ⊤}
use asseto_solana_programs.Prelude.Int.{ℤ}
use asseto_solana_programs.Errors.{Result, ok, err, ◌>>◌}
use asseto_solana_programs.Common.State.{AccountInfo, empty, loaded, unreadable}
use asseto_solana_programs.Common.Guards.{AssetAccounts, require_authorized}
use asseto_solana_programs.Common.Roles.{role_corporate_action}
use asseto_solana_programs.Common.Functionalities.{bond_update_bond_terms}

pub data DayCountConvention : Type 0 where
  actual360 actual365 : DayCountConvention

pub record BondTerms : Type 0 where
  pub bump : ℕ
  pub interest_rate : ℕ
  pub interest_rate_decimals : ℕ
  pub par_value : ℕ
  pub par_value_decimals : ℕ
  pub minimum_denomination : ℕ
  pub issuance_date : ℤ
  pub day_count_convention : DayCountConvention

pub record BondTermsArgs : Type 0 where
  pub interest_rate : ℕ
  pub interest_rate_decimals : ℕ
  pub par_value : ℕ
  pub par_value_decimals : ℕ
  pub minimum_denomination : ℕ
  pub issuance_date : ℤ
  pub day_count_convention : DayCountConvention

-- An account that is there is loaded.
abbrev pub initialized : AccountInfo BondTerms → Result ⊤
initialized empty = ok tt
initialized (loaded _) = ok tt
initialized (unreadable e) = err e

-- `bond_terms` is an `init_if_needed` account; every field is written.
unfoldable pub update_bond_terms :
    AssetAccounts → ℕ → AccountInfo BondTerms → BondTermsArgs → Result BondTerms
update_bond_terms a bump bond_terms args = do
  initialized bond_terms
  require_authorized a role_corporate_action bond_update_bond_terms
  ok (record {
    bump = bump;
    interest_rate = args.interest_rate;
    interest_rate_decimals = args.interest_rate_decimals;
    par_value = args.par_value;
    par_value_decimals = args.par_value_decimals;
    minimum_denomination = args.minimum_denomination;
    issuance_date = args.issuance_date;
    day_count_convention = args.day_count_convention;
  })
