-- ===== src/Factory.antt =====
-- programs/factory/src: the registry of asset classes, its manager, and the versions of a class.
pub mod Instructions
pub mod Versions
pub mod Lifecycle
pub mod Office
pub mod Signers
pub mod Management
mod Tests
use asseto_solana_programs.Prelude.{ℕ, ⊤, Bool, true, false, not, ◌==◌}
use asseto_solana_programs.Errors.{
  factory, FactoryError, not_manager, not_pending_manager, factory_paused, factory_not_paused,
  not_owner, not_pending_owner, Result, require,
}
use asseto_solana_programs.Common.ProgramIds.{Pubkey}

pub record Factory : Type 0 where
  pub manager : Pubkey
  pub pause : Bool
  pub bump : ℕ

pub record FactoryPendingManager : Type 0 where
  pub pending_manager : Pubkey
  pub bump : ℕ

pub record AssetClassOwnership : Type 0 where
  pub owner : Pubkey
  pub latest_version : ℕ
  pub bump : ℕ

pub record AssetClassPendingOwner : Type 0 where
  pub pending_owner : Pubkey
  pub bump : ℕ

unfoldable pub require_paused : Factory → Result ⊤
require_paused f = require f.pause (factory factory_not_paused)

unfoldable pub require_not_paused : Factory → Result ⊤
require_not_paused f = require (not f.pause) (factory factory_paused)

unfoldable pub verify_manager : Factory → Pubkey → Result ⊤
verify_manager f signer = require (signer == f.manager) (factory not_manager)

unfoldable pub verify_pending_manager : FactoryPendingManager → Pubkey → Result ⊤
verify_pending_manager pending signer =
    require (signer == pending.pending_manager) (factory not_pending_manager)

unfoldable pub verify_owner : AssetClassOwnership → Pubkey → Result ⊤
verify_owner asset_class signer = require (signer == asset_class.owner) (factory not_owner)

unfoldable pub verify_pending_owner : AssetClassPendingOwner → Pubkey → Result ⊤
verify_pending_owner pending signer =
    require (signer == pending.pending_owner) (factory not_pending_owner)
