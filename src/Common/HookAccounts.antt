-- ===== src/Common/HookAccounts.antt =====
-- programs/common/src/hook_accounts.rs: the accounts that a transfer forwards to its hook, by address.
use asseto_solana_programs.Prelude.{ℕ, Bool, false, List, [], ◌∷◌, ◌++◌, map}
use asseto_solana_programs.Common.ProgramIds.{
  Pubkey, deploy_program_id, factory_program_id, deactivate_program_id, transfer_control_program_id,
  freeze_program_id, hold_program_id, transfer_hook_program_id,
}
use asseto_solana_programs.Common.PdaSeeds.{
  Runtime, control_list_seeds, freeze_state_seeds, hold_position_seeds, asset_configuration_seeds,
  asset_class_version_seeds, deactivate_seeds, transfer_control_mode_seeds,
  extra_account_metas_seeds,
}
use asseto_solana_programs.Common.State.{AssetConfiguration}

abbrev pub hook_forwarded_account_count : ℕ
hook_forwarded_account_count = 16

pub record HookAccounts : Type 0 where
  pub extra_account_meta_list : Pubkey
  pub transfer_hook_program : Pubkey
  pub deploy_program : Pubkey
  pub asset_configuration_pda : Pubkey
  pub factory_program : Pubkey
  pub asset_class_version_pda : Pubkey
  pub deactivate_program : Pubkey
  pub deactivate_pda : Pubkey
  pub transfer_control_program : Pubkey
  pub transfer_control_mode_pda : Pubkey
  pub source_control_list_pda : Pubkey
  pub destination_control_list_pda : Pubkey
  pub freeze_program : Pubkey
  pub source_freeze_state_pda : Pubkey
  pub hold_program : Pubkey
  pub source_hold_position_pda : Pubkey

-- The accounts at the addresses that the programs' constraints ask for. The same fields stand in the
-- account lists of the three instructions that transfer; only the marker of the destination is not
-- constrained in all of them.
unfoldable pub constrained : Runtime → Pubkey → Pubkey → Pubkey → AssetConfiguration → HookAccounts
constrained rt mint source destination_control_list_pda asset_configuration = record {
  extra_account_meta_list =
      (rt.find_program_address (extra_account_metas_seeds mint) transfer_hook_program_id).0;
  transfer_hook_program = transfer_hook_program_id;
  deploy_program = deploy_program_id;
  asset_configuration_pda =
      (rt.find_program_address (asset_configuration_seeds mint) deploy_program_id).0;
  factory_program = factory_program_id;
  asset_class_version_pda =
      (rt.find_program_address
        (asset_class_version_seeds asset_configuration.asset_class_config_id
          asset_configuration.asset_class_version_id)
        factory_program_id).0;
  deactivate_program = deactivate_program_id;
  deactivate_pda = (rt.find_program_address (deactivate_seeds mint) deactivate_program_id).0;
  transfer_control_program = transfer_control_program_id;
  transfer_control_mode_pda =
      (rt.find_program_address (transfer_control_mode_seeds mint) transfer_control_program_id).0;
  source_control_list_pda =
      (rt.find_program_address (control_list_seeds mint source) transfer_control_program_id).0;
  destination_control_list_pda = destination_control_list_pda;
  freeze_program = freeze_program_id;
  source_freeze_state_pda =
      (rt.find_program_address (freeze_state_seeds mint source) freeze_program_id).0;
  hold_program = hold_program_id;
  source_hold_position_pda =
      (rt.find_program_address (hold_position_seeds mint source) hold_program_id).0;
}

-- The wire order.
abbrev pub ordered : HookAccounts → List Pubkey
ordered h =
    h.extra_account_meta_list ∷ h.transfer_hook_program ∷ h.deploy_program
    ∷ h.asset_configuration_pda ∷ h.factory_program ∷ h.asset_class_version_pda
    ∷ h.deactivate_program ∷ h.deactivate_pda ∷ h.transfer_control_program
    ∷ h.transfer_control_mode_pda ∷ h.source_control_list_pda ∷ h.destination_control_list_pda
    ∷ h.freeze_program ∷ h.source_freeze_state_pda ∷ h.hold_program ∷ h.source_hold_position_pda
    ∷ []

pub record AccountMeta : Type 0 where
  pub pubkey : Pubkey
  pub is_signer : Bool
  pub is_writable : Bool

abbrev pub new_readonly : Pubkey → Bool → AccountMeta
new_readonly pubkey is_signer = record {
  pubkey = pubkey;
  is_signer = is_signer;
  is_writable = false;
}

-- The accounts of an instruction, with the forwarded ones after them.
abbrev pub append_metas : HookAccounts → List AccountMeta → List AccountMeta
append_metas h accounts = accounts ++ map (λ key. new_readonly key false) (ordered h)

abbrev pub append_infos : HookAccounts → List Pubkey → List Pubkey
append_infos h infos = infos ++ ordered h
