-- ===== src/TransferControl.antt =====
-- programs/transfer-control/src: the mode of a mint, its control list, and the check that other
-- programs make.
pub mod Laws
mod Tests
use asseto_solana_programs.Prelude.{ℕ, ⊤, Bool, true, false, not, List, [], ◌∷◌, if◌then◌else◌}
use asseto_solana_programs.Errors.{
  external, constraint_failed, transfer_control, not_whitelisted, blacklisted, Error, Result, ok,
  err, ◌>>=◌, ◌>>◌, require,
}
use asseto_solana_programs.Common.State.{
  AccountInfo, empty, loaded, unreadable, data_is_empty, try_from,
}
use asseto_solana_programs.Common.Guards.{AssetAccounts, require_authorized}
use asseto_solana_programs.Common.Roles.{role_control_list}
use asseto_solana_programs.Common.Functionalities.{
  transfer_control_initialize, transfer_control_add_to_control_list,
  transfer_control_remove_from_control_list,
}

pub data TransferMode : Type 0 where
  whitelist blacklist : TransferMode

pub record TransferControlMode : Type 0 where
  pub mode : TransferMode
  pub bump : ℕ

pub record ControlListStatus : Type 0 where
  pub bump : ℕ

unfoldable pub verify_control_list_membership : AccountInfo ControlListStatus → Result ⊤
verify_control_list_membership pda =
    require (not (data_is_empty pda)) (transfer_control not_whitelisted)

unfoldable pub verify_not_listed : AccountInfo ControlListStatus → Result ⊤
verify_not_listed pda = require (data_is_empty pda) (transfer_control blacklisted)

-- The loop over the control-list accounts, with the check of the mode.
unfoldable pub verify_mode : TransferMode → List (AccountInfo ControlListStatus) → Result ⊤
unfolding verify_control_list_membership verify_not_listed
verify_mode mode [] = ok tt
verify_mode whitelist (pda ∷ pdas) = do
  verify_control_list_membership pda
  verify_mode whitelist pdas
verify_mode blacklist (pda ∷ pdas) = do verify_not_listed pda; verify_mode blacklist pdas

unfoldable pub verify_transfer_control_mode :
    AccountInfo TransferControlMode → List (AccountInfo ControlListStatus) → Result ⊤
unfolding verify_mode
verify_transfer_control_mode mode_pda pdas = elim (data_is_empty mode_pda) [
  | true ↦ ok tt
  | false ↦ try_from mode_pda >>= λ m. verify_mode m.mode pdas
]

-- `init`: the account must not hold data.
unfoldable pub initialize :
    AssetAccounts
    → ℕ
    → TransferMode
    → AccountInfo TransferControlMode
    → Result (AccountInfo TransferControlMode)
initialize a bump mode mode_pda = do
  require (data_is_empty mode_pda) (external constraint_failed)
  require_authorized a role_control_list transfer_control_initialize
  ok (loaded (record { mode = mode; bump = bump }))

-- `init_if_needed`: an account that is there must load.
abbrev pub init_if_needed : AccountInfo ControlListStatus → Result ⊤
init_if_needed empty = ok tt
init_if_needed (loaded _) = ok tt
init_if_needed (unreadable e) = err e

unfoldable pub add_to_control_list :
    AssetAccounts → ℕ → AccountInfo ControlListStatus → Result (AccountInfo ControlListStatus)
add_to_control_list a bump pda = do
  init_if_needed pda
  require_authorized a role_control_list transfer_control_add_to_control_list
  ok (loaded (record { bump = bump }))

-- `close = authority`: the account is closed after the handler.
unfoldable pub remove_from_control_list :
    AssetAccounts → AccountInfo ControlListStatus → Result (AccountInfo ControlListStatus)
remove_from_control_list a pda = do
  _ ← try_from pda
  require_authorized a role_control_list transfer_control_remove_from_control_list
  ok empty
