-- ===== src/TransferHook.antt =====
-- programs/transfer-hook/src/instructions/execute.rs: what Token-2022 runs inside every transfer.
pub mod Laws
pub mod Metas
mod Tests
use asseto_solana_programs.Prelude.{
  ℕ, ⊤, Bool, true, false, not, List, [], ◌∷◌, checked_add, if◌then◌else◌,
}
use asseto_solana_programs.Errors.{
  transfer_hook, not_transferring, freeze, account_frozen, insufficient_unfrozen_balance, Result,
  ok, ◌>>=◌, ◌>>◌, require, ok_or,
}
use asseto_solana_programs.Common.ProgramIds.{Pubkey, operations_program_id}
use asseto_solana_programs.Common.PdaSeeds.{Runtime, permanent_delegate_seeds, is_caller_pda}
use asseto_solana_programs.Common.State.{AccountInfo, TokenAccount, AssetClassVersion, HoldPosition}
use asseto_solana_programs.Common.Guards.{
  map_err, require_active, require_functionality, held_amount,
}
use asseto_solana_programs.Common.Functionalities.{transfer_hook_execute}
use asseto_solana_programs.Freeze.{FreezeState, freeze_status, require_locked_balance_covered}
use asseto_solana_programs.TransferControl.{
  TransferControlMode, ControlListStatus, verify_transfer_control_mode,
}

-- The accounts that `execute` reads; the source token account is as the transfer left it.
pub record Execute : Type 0 where
  pub source_token : Result TokenAccount
  pub mint : Pubkey
  pub owner : Pubkey
  pub asset_class_version_pda : AssetClassVersion
  pub deactivate_pda : AccountInfo ⊤
  pub transfer_control_mode_pda : AccountInfo TransferControlMode
  pub source_control_list_pda : AccountInfo ControlListStatus
  pub destination_control_list_pda : AccountInfo ControlListStatus
  pub source_freeze_state_pda : AccountInfo FreezeState
  pub source_hold_position_pda : AccountInfo HoldPosition

unfoldable pub require_transferring : Result TokenAccount → Result ⊤
require_transferring source_token = do
  state ← map_err source_token (transfer_hook not_transferring)
  transferring ← map_err state.transferring (transfer_hook not_transferring)
  require transferring (transfer_hook not_transferring)

-- The checks on a holder's transfer, in the handler's order.
unfoldable pub verify_compliance : Execute → Result ⊤
verify_compliance e = do
  require_active e.deactivate_pda
  verify_transfer_control_mode e.transfer_control_mode_pda
      (e.source_control_list_pda ∷ e.destination_control_list_pda ∷ [])
  status ← freeze_status e.source_freeze_state_pda
  require (not status.fully_frozen) (freeze account_frozen)
  held ← held_amount e.source_hold_position_pda
  total_locked ←
      ok_or (checked_add status.frozen_balance held) (freeze insufficient_unfrozen_balance)
  require_locked_balance_covered e.source_token total_locked
  require_functionality e.asset_class_version_pda transfer_hook_execute

-- The permanent delegate passes with no further check.
unfoldable pub execute : Runtime → Execute → Result ⊤
unfolding verify_compliance require_transferring is_caller_pda
execute rt e = do
  require_transferring e.source_token
  let checks = verify_compliance e
  if is_caller_pda rt e.owner (permanent_delegate_seeds e.mint) operations_program_id
      then ok tt
      else checks
