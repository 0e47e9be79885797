-- ===== src/Common/Guards.antt =====
-- programs/common/src/lib.rs: the checks that the handlers share.
use asseto_solana_programs.Prelude.{ℕ, ⊤, Bool, true, false, not, checked_add, leb, ◌==◌}
use asseto_solana_programs.Errors.{
  common, mint_paused, deactivated, functionality_not_supported_error,
  asset_class_version_not_finalized, missing_role, control_list_pda_mismatch,
  insufficient_spendable_balance, hold_position_pda_mismatch, CommonError, Error, Result, ok, err,
  ◌>>=◌, ◌>>◌, require, ok_or,
}
use asseto_solana_programs.Common.ProgramIds.{Pubkey, transfer_control_program_id, hold_program_id}
use asseto_solana_programs.Common.PdaSeeds.{Runtime, control_list_seeds, hold_position_seeds}
use asseto_solana_programs.Common.Bitmask.{Checked, within, past, is_set}
use asseto_solana_programs.Common.State.{
  AccountInfo, data_is_empty, try_from, MintState, TokenAccount, AssetClassVersion, HoldPosition,
  Roles, asset_class_version_state_finalized,
}

-- `.map_err(|_| error!(e))`
abbrev pub map_checked : {A : Type 0} → Checked A → Error → Result A
map_checked (within a) e = ok a
map_checked (past _) e = err e

abbrev pub map_err : {A : Type 0} → Result A → Error → Result A
map_err (ok a) e = ok a
map_err (err _) e = err e

unfoldable pub require_active : {T : Type 0} → AccountInfo T → Result ⊤
require_active deactivate_pda = require (data_is_empty deactivate_pda) (common deactivated)

-- The argument is the outcome of unpacking the mint.
unfoldable pub require_not_paused : Result MintState → Result ⊤
require_not_paused mint_account = do
  mint_state ← mint_account
  paused ← mint_state.paused
  require (not paused) (common mint_paused)

unfoldable pub is_functionality_enabled : AssetClassVersion → ℕ → Result Bool
is_functionality_enabled v functionality = do
  require (v.state == asset_class_version_state_finalized)
      (common asset_class_version_not_finalized)
  map_checked (is_set v.mask functionality) (common CommonError.functionality_out_of_bounds)

unfoldable pub require_functionality : AssetClassVersion → ℕ → Result ⊤
unfolding is_functionality_enabled
require_functionality v functionality = do
  enabled ← is_functionality_enabled v functionality
  require enabled (common functionality_not_supported_error)

unfoldable pub require_role : Roles → ℕ → Result ⊤
require_role roles role = do
  enabled ← map_checked (is_set roles.mask role) (common CommonError.role_out_of_bounds)
  require enabled (common missing_role)

unfoldable pub verify_control_list_pda : Runtime → Pubkey → Pubkey → Pubkey → Result ⊤
verify_control_list_pda rt control_list_pda destination mint =
    let (expected, _) =
      rt.find_program_address (control_list_seeds mint destination) transfer_control_program_id in
    require (control_list_pda == expected) (common control_list_pda_mismatch)

unfoldable pub held_amount : AccountInfo HoldPosition → Result ℕ
held_amount hold_position_pda = elim (data_is_empty hold_position_pda) [
  | true ↦ ok 0
  | false ↦ try_from hold_position_pda >>= λ position. ok position.held_amount
]

-- `balance >= held + amount`, for the paths on which no transfer hook runs.
unfoldable pub require_hold_covered : Result TokenAccount → AccountInfo HoldPosition → ℕ → Result ⊤
unfolding held_amount
require_hold_covered token_account hold_position_pda amount = do
  token_state ← map_err token_account (common insufficient_spendable_balance)
  held ← held_amount hold_position_pda
  required ← ok_or (checked_add held amount) (common insufficient_spendable_balance)
  require (leb required token_state.amount) (common insufficient_spendable_balance)

-- The same for a position that arrives by its address alone.
unfoldable pub require_hold_covered_unverified_pda :
    Runtime
    → Pubkey
    → Result TokenAccount
    → Pubkey
    → AccountInfo HoldPosition
    → Pubkey
    → ℕ
    → Result ⊤
unfolding require_hold_covered
require_hold_covered_unverified_pda rt token_key token_account hold_position_key position mint
      amount =
    let (expected, _) =
      rt.find_program_address (hold_position_seeds mint token_key) hold_program_id in
    require (hold_position_key == expected) (common hold_position_pda_mismatch)
    >> require_hold_covered token_account position amount

-- The accounts that an instruction of an asset lists for its checks: the signer's roles, the mint,
-- the deactivation marker and the version that the asset's configuration names.
pub record AssetAccounts : Type 0 where
  pub authority_roles_pda : Roles
  pub mint : Result MintState
  pub deactivate_pda : AccountInfo ⊤
  pub asset_class_version_pda : AssetClassVersion

-- The sequence of checks that opens most handlers, with the role and the functionality of each.
unfoldable pub require_authorized : AssetAccounts → ℕ → ℕ → Result ⊤
require_authorized a role functionality = do
  require_role a.authority_roles_pda role
  require_not_paused a.mint
  require_active a.deactivate_pda
  require_functionality a.asset_class_version_pda functionality
