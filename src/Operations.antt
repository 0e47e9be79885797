-- ===== src/Operations.antt =====
-- programs/operations/src/instructions: forced transfers and burns by the permanent delegate.
pub mod Laws
mod Tests
use asseto_solana_programs.Prelude.{ℕ, ⊤, ◌*◌, Bool, true, false, not, List, [], ◌∷◌, length, ◌==◌}
use asseto_solana_programs.Errors.{
  operations, OperationsError, unauthorized_hold_authority, Result, ok, ◌>>=◌, ◌>>◌, require,
}
use asseto_solana_programs.Common.ProgramIds.{
  Pubkey, operations_program_id, hold_program_id, transfer_control_program_id,
}
use asseto_solana_programs.Common.PdaSeeds.{
  Runtime, permanent_delegate_seeds, permissioned_burn_seeds, hold_authority_seeds,
  control_list_seeds, is_caller_pda,
}
use asseto_solana_programs.Common.State.{AccountInfo, HoldPosition, AssetConfiguration}
use asseto_solana_programs.Common.HookAccounts.{HookAccounts, constrained}
use asseto_solana_programs.Common.Guards.{
  AssetAccounts, require_role, require_active, require_functionality, require_hold_covered,
  require_hold_covered_unverified_pda,
}
use asseto_solana_programs.Common.Token.{TokenProgram}
use asseto_solana_programs.Common.Roles.{role_controller}
use asseto_solana_programs.Common.Functionalities.{operations_burn, operations_controller_transfer}

-- An account of a batch after the named ones: its address, and what it is as a hold position.
pub record RemainingAccount : Type 0 where
  pub key : Pubkey
  pub as_hold_position : AccountInfo HoldPosition

-- The accounts that the two transfers forward to the hook, which Token-2022 runs for them too: each is
-- at the address of its constraint, the destination's marker too.
unfoldable pub controller_hook_accounts :
    Runtime → Pubkey → Pubkey → Pubkey → AssetConfiguration → HookAccounts
unfolding constrained
controller_hook_accounts rt mint from to asset_configuration =
    constrained rt mint from
      (rt.find_program_address (control_list_seeds mint to) transfer_control_program_id).0
      asset_configuration

unfoldable pub hold_hook_accounts :
    Runtime → Pubkey → Pubkey → Pubkey → AssetConfiguration → HookAccounts
unfolding constrained
hold_hook_accounts rt mint from to asset_configuration =
    constrained rt mint from
      (rt.find_program_address (control_list_seeds mint to) transfer_control_program_id).0
      asset_configuration

module _ (rt : Runtime) (tp : TokenProgram) (mint : Pubkey) where
  open tp use {Ledger, mint_state, token_account, transfer_checked, permissioned_burn}

  -- The mint's permanent delegate: a seed constraint of every instruction here.
  unfoldable pub operations_authority : Pubkey
  operations_authority =
      (rt.find_program_address (permanent_delegate_seeds mint) operations_program_id).0

  unfoldable pub permissioned_burn_authority : Pubkey
  permissioned_burn_authority =
      (rt.find_program_address (permissioned_burn_seeds mint) operations_program_id).0

  unfoldable pub hold_transfer : Pubkey → Pubkey → Pubkey → ℕ → Ledger → Result Ledger
  unfolding operations_authority is_caller_pda
  hold_transfer hold_authority from to amount ledger = do
    require (is_caller_pda rt hold_authority (hold_authority_seeds mint) hold_program_id)
        (operations unauthorized_hold_authority)
    state ← mint_state mint ledger
    transfer_checked from mint to operations_authority amount state.decimals ledger

  unfoldable pub controller_transfer :
      AssetAccounts → AccountInfo HoldPosition → Pubkey → Pubkey → ℕ → Ledger → Result Ledger
  unfolding operations_authority
  controller_transfer a source_hold_position from to amount ledger = do
    require_role a.authority_roles_pda role_controller
    require_active a.deactivate_pda
    require_functionality a.asset_class_version_pda operations_controller_transfer
    require_hold_covered (token_account from ledger) source_hold_position amount
    state ← mint_state mint ledger
    transfer_checked from mint to operations_authority amount state.decimals ledger

  unfoldable pub burn :
      AssetAccounts → AccountInfo HoldPosition → Pubkey → ℕ → Ledger → Result Ledger
  unfolding operations_authority permissioned_burn_authority
  burn a hold_position account amount ledger = do
    require_role a.authority_roles_pda role_controller
    require_active a.deactivate_pda
    require_functionality a.asset_class_version_pda operations_burn
    require_hold_covered (token_account account ledger) hold_position amount
    permissioned_burn account mint permissioned_burn_authority operations_authority amount ledger

  -- One round of the loop: the position's address is checked here, since no constraint does.
  unfoldable pub burn_entry : ℕ → Pubkey → RemainingAccount → Ledger → Result Ledger
  unfolding operations_authority permissioned_burn_authority
  burn_entry amount destination position ledger = do
    require_hold_covered_unverified_pda rt destination (token_account destination ledger)
        position.key position.as_hold_position mint amount
    permissioned_burn destination mint permissioned_burn_authority operations_authority amount
        ledger

  -- The token account and the hold position of a burn stand at `2 * i` and `2 * i + 1`.
  unfoldable pub burn_all : List ℕ → List RemainingAccount → Ledger → Result Ledger
  unfolding burn_entry
  burn_all [] remaining ledger = ok ledger
  burn_all (_ ∷ _) [] ledger = ok ledger
  burn_all (_ ∷ _) (_ ∷ []) ledger = ok ledger
  burn_all (amount ∷ amounts) (destination ∷ position ∷ remaining) ledger =
      burn_entry amount destination.key position ledger >>= λ ledger'.
      burn_all amounts remaining ledger'

  unfoldable pub batch_burn :
      AssetAccounts → List ℕ → List RemainingAccount → Ledger → Result Ledger
  unfolding burn_all
  batch_burn a amounts remaining ledger = do
    require (not (length amounts == 0)) (operations OperationsError.empty_batch)
    require (length remaining == length amounts * 2)
        (operations OperationsError.invalid_remaining_accounts)
    require_role a.authority_roles_pda role_controller
    require_active a.deactivate_pda
    require_functionality a.asset_class_version_pda operations_burn
    burn_all amounts remaining ledger
