-- ===== src/Deploy.antt =====
-- programs/deploy/src/instructions/deploy_mint.rs: the mint of an asset, with its extensions, its
-- metadata, its authorities and the accounts of the other programs.
pub mod Token
pub mod Setup
pub mod Outcome
mod Tests
use asseto_solana_programs.Prelude.{
  ℕ, ⊤, ◌+◌, Bool, true, Option, none, some, List, [], ◌∷◌, map, Bytes, ◌==◌,
}
use asseto_solana_programs.Errors.{
  external, constraint_failed, common, asset_class_version_not_finalized, deploy,
  invalid_mint_account_size, Result, ok, ◌>>=◌, ◌>>◌, require,
}
use asseto_solana_programs.Common.ProgramIds.{
  Pubkey, deploy_program_id, mint_program_id, operations_program_id, metadata_update_program_id,
  pause_program_id, transfer_hook_program_id,
}
use asseto_solana_programs.Common.PdaSeeds.{
  Runtime, temp_mint_authority_seeds, mint_authority_seeds, permanent_delegate_seeds,
  permissioned_burn_seeds, metadata_update_authority_seeds, pausable_authority_seeds,
  transfer_hook_authority_seeds,
}
use asseto_solana_programs.Common.State.{
  AccountInfo, data_is_empty, AssetClassVersion, AssetConfiguration, Roles,
  asset_class_version_state_finalized,
}
use asseto_solana_programs.Common.Guards.{map_err}
use asseto_solana_programs.Common.System.{SystemProgram}
use asseto_solana_programs.MetadataUpdate.{TokenMetadata, Field}
use asseto_solana_programs.TransferHook.Metas.{ExtraAccountMeta, initialize_extra_account_meta_list}
use asseto_solana_programs.AccessControl.{initialize}
use asseto_solana_programs.Deploy.Token.{
  ExtensionType, permanent_delegate, metadata_pointer, pausable, transfer_hook, permissioned_burn,
  MintSetup,
}

pub record MetadataField : Type 0 where
  pub key : Bytes
  pub value : Bytes

pub record DeployMintParams : Type 0 where
  pub decimals : ℕ
  pub name : Bytes
  pub symbol : Bytes
  pub uri : Bytes
  pub additional_metadata : List MetadataField
  pub asset_class_config_id : ℕ
  pub asset_class_version_id : ℕ

-- The derived addresses of `DeployMint`, by their constraints.
pub record Authorities : Type 0 where
  pub temp_mint_authority : Pubkey
  pub mint_authority : Pubkey
  pub permanent_delegate_authority : Pubkey
  pub permissioned_burn_authority : Pubkey
  pub metadata_update_authority : Pubkey
  pub pausable_authority : Pubkey
  pub transfer_hook_authority : Pubkey

unfoldable pub authorities : Runtime → Pubkey → Authorities
authorities rt mint = record {
  temp_mint_authority =
      (rt.find_program_address (temp_mint_authority_seeds mint) deploy_program_id).0;
  mint_authority = (rt.find_program_address (mint_authority_seeds mint) mint_program_id).0;
  permanent_delegate_authority =
      (rt.find_program_address (permanent_delegate_seeds mint) operations_program_id).0;
  permissioned_burn_authority =
      (rt.find_program_address (permissioned_burn_seeds mint) operations_program_id).0;
  metadata_update_authority =
      (rt.find_program_address (metadata_update_authority_seeds mint) metadata_update_program_id).0;
  pausable_authority = (rt.find_program_address (pausable_authority_seeds mint) pause_program_id).0;
  transfer_hook_authority =
      (rt.find_program_address (transfer_hook_authority_seeds mint) transfer_hook_program_id).0;
}

abbrev pub fields_of : List MetadataField → List (Bytes × Bytes)
fields_of = map λ f. (f.key, f.value)

module _ (sys : SystemProgram) (ms : MintSetup sys) where
  open sys use {Accounts, minimum_balance, create_account}

  -- Room for the extensions, and lamports for the metadata too.
  unfoldable pub create_mint_account :
      Pubkey → Pubkey → DeployMintParams → Accounts → Result Accounts
  create_mint_account payer mint params l = do
    base_size ←
        map_err
          (ms.account_len (
            permanent_delegate ∷ metadata_pointer ∷ pausable ∷ transfer_hook ∷ permissioned_burn
            ∷ []))
          (deploy invalid_mint_account_size)
    metadata_tlv_size ←
        map_err
          (ms.tlv_size_of (record {
            name = params.name;
            symbol = params.symbol;
            uri = params.uri;
            additional_metadata = fields_of params.additional_metadata;
          }))
          (deploy invalid_mint_account_size)
    create_account payer mint (minimum_balance (base_size + metadata_tlv_size)) base_size
        ms.token_program_id l

  unfoldable pub initialize_extensions : Authorities → Pubkey → Accounts → Result Accounts
  initialize_extensions auth mint l = do
    l1 ← ms.initialize_metadata_pointer mint none (some mint) l
    l2 ← ms.initialize_permanent_delegate mint auth.permanent_delegate_authority l1
    l3 ← ms.initialize_permissioned_burn mint auth.permissioned_burn_authority l2
    l4 ← ms.initialize_pausable mint auth.pausable_authority l3
    ms.initialize_transfer_hook mint (some auth.transfer_hook_authority)
        (some transfer_hook_program_id) l4

  unfoldable pub write_fields :
      Authorities → Pubkey → List MetadataField → Accounts → Result Accounts
  write_fields auth mint [] l = ok l
  write_fields auth mint (f ∷ fs) l =
      ms.update_field mint auth.temp_mint_authority (Field.key f.key) f.value l >>= λ l'.
      write_fields auth mint fs l'

  -- The metadata, under the temporary authority, which then gives it and the mint away.
  unfoldable pub write_metadata :
      Authorities → Pubkey → DeployMintParams → Accounts → Result Accounts
  unfolding write_fields
  write_metadata auth mint params l = do
    l1 ←
        ms.initialize_token_metadata mint auth.temp_mint_authority mint auth.temp_mint_authority
          params.name params.symbol params.uri l
    l2 ← write_fields auth mint params.additional_metadata l1
    ms.update_authority mint auth.temp_mint_authority (some auth.metadata_update_authority) l2

  unfoldable pub set_up_mint :
      Authorities → Pubkey → Pubkey → DeployMintParams → Accounts → Result Accounts
  unfolding create_mint_account initialize_extensions write_metadata
  set_up_mint auth payer mint params l = do
    l1 ← create_mint_account payer mint params l
    l2 ← initialize_extensions auth mint l1
    l3 ← ms.initialize_mint2 mint auth.temp_mint_authority none params.decimals l2
    l4 ← write_metadata auth mint params l3
    ms.set_authority_mint_tokens mint (some auth.mint_authority) auth.temp_mint_authority l4

-- The accounts that the handler reads, with the bumps that Anchor found; `Written` is what the account
-- of the hook's list holds.
pub record DeployMint (Written : Type 0) : Type 0 where
  pub payer : Pubkey
  pub mint : Pubkey
  pub asset_configuration_pda : AccountInfo AssetConfiguration
  pub asset_configuration_bump : ℕ
  pub asset_class_version_pda : AssetClassVersion
  pub extra_account_meta_list : AccountInfo Written
  pub roles_pda : AccountInfo Roles
  pub roles_bump : ℕ

pub record Deployed (sys : SystemProgram) (Written : Type 0) : Type 0 where
  pub accounts : sys.Accounts
  pub asset_configuration : AssetConfiguration
  pub extra_account_meta_list : Written
  pub roles : Roles

module _ (rt : Runtime) (sys : SystemProgram) (ms : MintSetup sys) {Written : Type 0}
    (init : ℕ → List ExtraAccountMeta → Result Written) where
  unfoldable pub deploy_mint :
      DeployMint Written → DeployMintParams → sys.Accounts → Result (Deployed sys Written)
  unfolding authorities set_up_mint
  deploy_mint d params l = do
    require (data_is_empty d.asset_configuration_pda) (external constraint_failed)
    require (d.asset_class_version_pda.state == asset_class_version_state_finalized)
        (common asset_class_version_not_finalized)
    let auth = authorities rt d.mint
    accounts ← set_up_mint sys ms auth d.payer d.mint params l
    extra_account_meta_list ← initialize_extra_account_meta_list init true d.extra_account_meta_list
    roles ← initialize rt d.mint auth.temp_mint_authority d.roles_bump d.roles_pda
    ok (record {
      accounts = accounts;
      asset_configuration = record {
        asset_class_config_id = d.asset_class_version_pda.config_id;
        asset_class_version_id = d.asset_class_version_pda.version;
        bump = d.asset_configuration_bump;
      };
      extra_account_meta_list = extra_account_meta_list;
      roles = roles;
    })
