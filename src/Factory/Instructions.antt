-- ===== src/Factory/Instructions.antt =====
-- programs/factory/src/instructions. Each instruction returns the accounts that it writes; an account
-- that it closes becomes `empty`.
use asseto_solana_programs.Prelude.{
  ℕ, ⊤, true, false, Option, none, some, List, Bytes, ◌==◌, checked_add, replicate,
}
use asseto_solana_programs.Errors.{
  external, constraint_failed, factory, FactoryError, invalid_version, version_not_draft, overflow,
  Result, ok, err, ◌>>=◌, ◌>>◌, require, ok_or,
}
use asseto_solana_programs.Common.ProgramIds.{Pubkey}
use asseto_solana_programs.Common.Bitmask.{set_bits, clear_bits}
use asseto_solana_programs.Common.State.{
  AccountInfo, empty, loaded, unreadable, data_is_empty, AssetClassVersion,
  functionalities_bytes_mask, asset_class_version_state_draft, asset_class_version_state_finalized,
}
use asseto_solana_programs.Factory.{
  Factory, FactoryPendingManager, AssetClassOwnership, AssetClassPendingOwner, require_paused,
  require_not_paused, verify_manager, verify_pending_manager, verify_owner, verify_pending_owner,
}

-- `init_if_needed` on an account that the handler overwrites.
abbrev pub init_if_needed : {T : Type 0} → AccountInfo T → Result ⊤
init_if_needed empty = ok tt
init_if_needed (loaded _) = ok tt
init_if_needed (unreadable e) = err e

unfoldable pub initialize : Pubkey → ℕ → AccountInfo Factory → Result Factory
initialize manager bump pda = do
  require (data_is_empty pda) (external constraint_failed)
  ok (record { manager = manager; pause = false; bump = bump })

unfoldable pub pause : Factory → Pubkey → Result Factory
pause f manager = do require_not_paused f; verify_manager f manager; ok (record f { pause = true })

unfoldable pub unpause : Factory → Pubkey → Result Factory
unpause f manager = do require_paused f; verify_manager f manager; ok (record f { pause = false })

unfoldable pub nominate_manager :
    Factory → Pubkey → ℕ → AccountInfo FactoryPendingManager → Pubkey → Result FactoryPendingManager
nominate_manager f current_manager bump pda new_manager = do
  init_if_needed pda
  require_not_paused f
  verify_manager f current_manager
  ok (record { pending_manager = new_manager; bump = bump })

unfoldable pub accept_nomination :
    Factory → FactoryPendingManager → Pubkey → Result (Factory × AccountInfo FactoryPendingManager)
accept_nomination f pending pending_manager = do
  require_not_paused f
  verify_pending_manager pending pending_manager
  ok (record f { manager = pending.pending_manager }, AccountInfo.empty)

unfoldable pub cancel_nomination :
    Factory → FactoryPendingManager → Pubkey → Result (AccountInfo FactoryPendingManager)
cancel_nomination f pending current_manager = do
  require_not_paused f
  verify_manager f current_manager
  ok AccountInfo.empty

unfoldable pub create_asset_class :
    Factory → Pubkey → ℕ → AccountInfo AssetClassOwnership → Pubkey → Result AssetClassOwnership
create_asset_class f manager bump pda owner = do
  require (data_is_empty pda) (external constraint_failed)
  require_not_paused f
  verify_manager f manager
  ok (record { owner = owner; latest_version = 0; bump = bump })

unfoldable pub nominate_asset_class_owner :
    Factory
    → AssetClassOwnership
    → Pubkey
    → ℕ
    → AccountInfo AssetClassPendingOwner
    → Pubkey
    → Result AssetClassPendingOwner
nominate_asset_class_owner f asset_class current_owner bump pda new_owner = do
  init_if_needed pda
  require_not_paused f
  verify_owner asset_class current_owner
  ok (record { pending_owner = new_owner; bump = bump })

unfoldable pub accept_asset_class_ownership :
    Factory
    → AssetClassOwnership
    → AssetClassPendingOwner
    → Pubkey
    → Result (AssetClassOwnership × AccountInfo AssetClassPendingOwner)
accept_asset_class_ownership f asset_class pending pending_owner = do
  require_not_paused f
  verify_pending_owner pending pending_owner
  ok (record asset_class { owner = pending.pending_owner }, AccountInfo.empty)

unfoldable pub cancel_asset_class_ownership :
    Factory
    → AssetClassOwnership
    → AssetClassPendingOwner
    → Pubkey
    → Result (AccountInfo AssetClassPendingOwner)
cancel_asset_class_ownership f asset_class pending current_owner = do
  require_not_paused f
  verify_owner asset_class current_owner
  ok AccountInfo.empty

-- `init`: the account of the version must not be there; its mask starts as zeros.
unfoldable pub init_asset_class_version :
    Factory
    → AssetClassOwnership
    → Pubkey
    → ℕ
    → AccountInfo AssetClassVersion
    → ℕ
    → ℕ
    → Result AssetClassVersion
init_asset_class_version f asset_class owner bump pda config_id version = do
  require (data_is_empty pda) (external constraint_failed)
  require_not_paused f
  verify_owner asset_class owner
  expected_version ← ok_or (checked_add asset_class.latest_version 1) (factory overflow)
  require (version == expected_version) (factory invalid_version)
  ok (record {
    config_id = config_id;
    version = version;
    state = asset_class_version_state_draft;
    bump = bump;
    mask = replicate functionalities_bytes_mask 0;
  })

unfoldable pub mask_of : Bytes × Option ℕ → Result Bytes
mask_of (mask, none) = ok mask
mask_of (_, some _) = err (factory FactoryError.functionality_out_of_bounds)

unfoldable pub enable_asset_class_version_functionalities :
    Factory → AssetClassOwnership → Pubkey → AssetClassVersion → List ℕ → Result AssetClassVersion
unfolding mask_of
enable_asset_class_version_functionalities f asset_class owner v functionalities = do
  require_not_paused f
  verify_owner asset_class owner
  require (v.state == asset_class_version_state_draft) (factory version_not_draft)
  mask ← mask_of (set_bits v.mask functionalities)
  ok (record v { mask = mask })

unfoldable pub disable_asset_class_version_functionalities :
    Factory → AssetClassOwnership → Pubkey → AssetClassVersion → List ℕ → Result AssetClassVersion
unfolding mask_of
disable_asset_class_version_functionalities f asset_class owner v functionalities = do
  require_not_paused f
  verify_owner asset_class owner
  require (v.state == asset_class_version_state_draft) (factory version_not_draft)
  mask ← mask_of (clear_bits v.mask functionalities)
  ok (record v { mask = mask })

unfoldable pub finalize_asset_class_version :
    Factory
    → AssetClassOwnership
    → Pubkey
    → AssetClassVersion
    → Result (AssetClassOwnership × AssetClassVersion)
finalize_asset_class_version f asset_class owner v = do
  require_not_paused f
  verify_owner asset_class owner
  expected_version ← ok_or (checked_add asset_class.latest_version 1) (factory overflow)
  require (v.state == asset_class_version_state_draft) (factory version_not_draft)
  require (v.version == expected_version) (factory invalid_version)
  ok (
    record asset_class { latest_version = v.version },
    record v { state = asset_class_version_state_finalized },
  )
