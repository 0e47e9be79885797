-- ===== src/Pause.antt =====
-- programs/pause/src and programs/deactivate/src: the pause of a mint, and the end of an asset.
pub mod Lifecycle
mod Tests
use asseto_solana_programs.Prelude.{ℕ, ⊤}
use asseto_solana_programs.Errors.{
  external, constraint_failed, Result, ok, err, ◌>>=◌, ◌>>◌, require,
}
use asseto_solana_programs.Common.ProgramIds.{Pubkey, pause_program_id}
use asseto_solana_programs.Common.PdaSeeds.{Runtime, pausable_authority_seeds}
use asseto_solana_programs.Common.State.{AccountInfo, data_is_empty, AssetClassVersion, Roles}
use asseto_solana_programs.Common.Guards.{
  require_active, require_not_paused, require_functionality, require_role,
}
use asseto_solana_programs.Common.Token.{TokenProgram}
use asseto_solana_programs.Common.Roles.{role_pauser, role_deactivate}
use asseto_solana_programs.Common.Functionalities.{
  pause_pause, pause_unpause, deactivate_deactivate,
}

pub record DeactivateStatus : Type 0 where
  pub bump : ℕ

-- The accounts that the three instructions list for their checks.
pub record Operator : Type 0 where
  pub authority_roles_pda : Roles
  pub asset_class_version_pda : AssetClassVersion

unfoldable pub pausable_authority : Runtime → Pubkey → Pubkey
pausable_authority rt mint =
    (rt.find_program_address (pausable_authority_seeds mint) pause_program_id).0

module _ (rt : Runtime) (tp : TokenProgram) (mint : Pubkey) where
  open tp use {Ledger}

  unfoldable pub pause : Operator → AccountInfo DeactivateStatus → Ledger → Result Ledger
  unfolding pausable_authority
  pause o deactivate_pda ledger = do
    require_role o.authority_roles_pda role_pauser
    require_active deactivate_pda
    require_functionality o.asset_class_version_pda pause_pause
    tp.pause mint (pausable_authority rt mint) ledger

  unfoldable pub unpause : Operator → AccountInfo DeactivateStatus → Ledger → Result Ledger
  unfolding pausable_authority
  unpause o deactivate_pda ledger = do
    require_role o.authority_roles_pda role_pauser
    require_active deactivate_pda
    require_functionality o.asset_class_version_pda pause_unpause
    tp.resume mint (pausable_authority rt mint) ledger

  -- `deactivate_pda` is an `init` account.
  unfoldable pub deactivate :
      Operator → ℕ → AccountInfo DeactivateStatus → Ledger → Result DeactivateStatus
  deactivate o bump deactivate_pda ledger = do
    require (data_is_empty deactivate_pda) (external constraint_failed)
    require_role o.authority_roles_pda role_deactivate
    require_not_paused (tp.mint_state mint ledger)
    require_functionality o.asset_class_version_pda deactivate_deactivate
    ok (record { bump = bump })
