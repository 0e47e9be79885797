-- ===== src/TransferHook/Metas.antt =====
-- programs/transfer-hook/src/instructions/initialize_extra_account_meta_list.rs: the list by which a
-- client finds the accounts that the hook reads.
pub mod Resolution
pub mod Tests
use asseto_solana_programs.Prelude.{ℕ, ⊤, ◌+◌, Bool, true, false, List, [], ◌∷◌, Bytes}
use asseto_solana_programs.Errors.{
  external, constraint_failed, transfer_hook, invalid_account_size, Result, ◌>>=◌, ◌>>◌, require,
}
use asseto_solana_programs.Common.ProgramIds.{
  Pubkey, deploy_program_id, factory_program_id, deactivate_program_id, transfer_control_program_id,
  freeze_program_id, hold_program_id,
}
use asseto_solana_programs.Common.PdaSeeds.{codes}
use asseto_solana_programs.Common.State.{
  AccountInfo, data_is_empty, asset_class_config_id_offset, asset_class_version_id_offset,
}
use asseto_solana_programs.Common.Guards.{map_err}

-- `spl_tlv_account_resolution::seeds::Seed`, in the cases that the list uses.
pub data Seed : Type 0 where
  literal : Bytes → Seed
  account_key : (index : ℕ) → Seed
  account_data : (account_index data_index length : ℕ) → Seed

-- An `ExtraAccountMeta`, by its two constructors: the last two arguments say whether the account signs
-- and whether it is writable.
pub data ExtraAccountMeta : Type 0 where
  new_with_pubkey : Pubkey → Bool → Bool → ExtraAccountMeta
  new_external_pda_with_seeds : ℕ → List Seed → Bool → Bool → ExtraAccountMeta

abbrev pub extra_account_meta_count : ℕ
extra_account_meta_count = 14

abbrev pub metas : List ExtraAccountMeta
metas =
    new_with_pubkey deploy_program_id false false
    ∷ new_external_pda_with_seeds 5 (literal (codes "asset_configuration") ∷ account_key 1 ∷ [])
        false false
    ∷ new_with_pubkey factory_program_id false false
    ∷ new_external_pda_with_seeds 7
        (literal (codes "asset_class_version")
          ∷ account_data 6 asset_class_config_id_offset 8
          ∷ account_data 6 asset_class_version_id_offset 8
          ∷ [])
        false false
    ∷ new_with_pubkey deactivate_program_id false false
    ∷ new_external_pda_with_seeds 9 (literal (codes "deactivate") ∷ account_key 1 ∷ []) false false
    ∷ new_with_pubkey transfer_control_program_id false false
    ∷ new_external_pda_with_seeds 11 (literal (codes "transfer_control_mode") ∷ account_key 1 ∷ [])
        false false
    ∷ new_external_pda_with_seeds 11
        (literal (codes "control_list") ∷ account_key 1 ∷ account_key 0 ∷ []) false false
    ∷ new_external_pda_with_seeds 11
        (literal (codes "control_list") ∷ account_key 1 ∷ account_key 2 ∷ []) false false
    ∷ new_with_pubkey freeze_program_id false false
    ∷ new_external_pda_with_seeds 15
        (literal (codes "freeze_state") ∷ account_key 1 ∷ account_key 0 ∷ []) false false
    ∷ new_with_pubkey hold_program_id false false
    ∷ new_external_pda_with_seeds 17
        (literal (codes "hold_position") ∷ account_key 1 ∷ account_key 0 ∷ []) false false
    ∷ []

-- `init` is `ExtraAccountMetaList::init` on an account with room for so many metas, and `List` what
-- the account then holds. The configuration's address signs, as only the deploy program can make it.
module _ {Written : Type 0} (init : ℕ → List ExtraAccountMeta → Result Written) where
  unfoldable pub initialize_extra_account_meta_list : Bool → AccountInfo Written → Result Written
  initialize_extra_account_meta_list signed extra_account_meta_list = do
    require (data_is_empty extra_account_meta_list) (external constraint_failed)
    require signed (external constraint_failed)
    map_err (init extra_account_meta_count metas) (transfer_hook invalid_account_size)
