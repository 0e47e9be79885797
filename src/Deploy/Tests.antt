-- ===== src/Deploy/Tests.antt =====
-- The deployment of one mint, over a token program that keeps the configuration of a single mint.
use asseto_solana_programs.Prelude.{
  ℕ, ◌+◌, ◌≡◌, refl, sym, ◌↔◌, true, none, some, List, [], ◌∷◌, replicate, length,
}
use asseto_solana_programs.Errors.{Result, ok, ok_inj}
use asseto_solana_programs.Common.ProgramIds.{Pubkey}
use asseto_solana_programs.Common.PdaSeeds.{as_ref, is_caller_pda, temp_mint_authority_seeds}
use asseto_solana_programs.Common.Bitmask.{locate, set_bits}
use asseto_solana_programs.Common.State.{
  AccountInfo, data_is_empty, asset_class_version_state_finalized,
}
use asseto_solana_programs.Common.Roles.{role_admin}
use asseto_solana_programs.Common.System.{SystemProgram}
use asseto_solana_programs.Common.Examples.{runtime, version}
use asseto_solana_programs.MetadataUpdate.Size.{updated}
use asseto_solana_programs.TransferHook.Metas.{
  ExtraAccountMeta, extra_account_meta_count, metas, initialize_extra_account_meta_list,
}
use asseto_solana_programs.AccessControl.{mask_of, initialize}
use asseto_solana_programs.AccessControl.Laws.{HasRole}
use asseto_solana_programs.Deploy.Token.{MintSetup}
use asseto_solana_programs.Deploy.{
  DeployMintParams, authorities, create_mint_account, initialize_extensions, write_fields,
  write_metadata, set_up_mint, DeployMint, Deployed, deploy_mint,
}
use asseto_solana_programs.Deploy.Setup.{MintConfig, MintSetupLaws, expected}
use asseto_solana_programs.Deploy.Outcome.{deploy_mint-Deployed}

abbrev system : SystemProgram
system = record {
  Accounts = MintConfig;
  lamports = λ l k. 0;
  data_len = λ l k. 0;
  minimum_balance = λ size. size;
  create_account = λ from to amount space owner l. ok l;
  assign = λ account owner l. ok l;
  transfer = λ from to amount l. ok l;
  set_lamports = λ account amount l. ok l;
  resize = λ account space l. ok l;
  fill_zero = λ account l. ok l;
}

abbrev setup : MintSetup system
setup = record {
  account_len = λ extensions. ok (82 + length extensions);
  tlv_size_of = λ meta. ok (length meta.name);
  token_program_id = 6;
  initialize_metadata_pointer = λ mint authority address l.
      ok (record l { metadata_pointer_authority = authority; metadata_address = address });
  initialize_permanent_delegate =
      λ mint delegate l. ok (record l { permanent_delegate = delegate });
  initialize_permissioned_burn =
      λ mint authority l. ok (record l { permissioned_burn_authority = authority });
  initialize_pausable = λ mint authority l. ok (record l { pausable_authority = authority });
  initialize_transfer_hook = λ mint authority program l.
      ok (record l { transfer_hook_authority = authority; transfer_hook_program = program });
  initialize_mint2 = λ mint authority freeze decimals l. ok (record l {
    mint_authority = some authority;
    freeze_authority = freeze;
    decimals = decimals;
  });
  initialize_token_metadata = λ metadata authority mint mint_authority name symbol uri l.
      ok (record l {
        update_authority = some authority;
        metadata = record { name = name; symbol = symbol; uri = uri; additional_metadata = [] };
      });
  update_field =
      λ mint authority field value l. ok (record l { metadata = updated l.metadata field value });
  update_authority = λ mint current new l. ok (record l { update_authority = new });
  set_authority_mint_tokens = λ mint new current l. ok (record l { mint_authority = new });
}

abbrev config : MintConfig → Pubkey → MintConfig
config l mint = l

laws : MintSetupLaws system setup config
laws = record {
  metadata_pointer_law = λ mint authority address l h. sym (ok_inj h);
  permanent_delegate_law = λ mint delegate l h. sym (ok_inj h);
  permissioned_burn_law = λ mint authority l h. sym (ok_inj h);
  pausable_law = λ mint authority l h. sym (ok_inj h);
  transfer_hook_law = λ mint authority program l h. sym (ok_inj h);
  mint2_law = λ mint authority freeze decimals l h. sym (ok_inj h);
  token_metadata_law = λ mint authority mint_authority name symbol uri l h. sym (ok_inj h);
  update_field_law = λ mint authority field value l h. sym (ok_inj h);
  update_authority_law = λ mint current new l h. sym (ok_inj h);
  set_authority_law = λ mint new current l h. sym (ok_inj h);
}

abbrev nothing : MintConfig
nothing = record {
  metadata_pointer_authority = none;
  metadata_address = none;
  permanent_delegate = 0;
  permissioned_burn_authority = 0;
  pausable_authority = 0;
  transfer_hook_authority = none;
  transfer_hook_program = none;
  mint_authority = none;
  freeze_authority = some 66;
  decimals = 0;
  update_authority = none;
  metadata = record { name = []; symbol = []; uri = []; additional_metadata = [] };
}

abbrev params : DeployMintParams
params = record {
  decimals = 2;
  name = 65 ∷ [];
  symbol = 66 ∷ [];
  uri = [];
  additional_metadata = record { key = 105 ∷ []; value = 49 ∷ [] } ∷ [];
  asset_class_config_id = 1;
  asset_class_version_id = 1;
}

abbrev accounts : DeployMint (List ExtraAccountMeta)
accounts = record {
  payer = 1;
  mint = 7;
  asset_configuration_pda = AccountInfo.empty;
  asset_configuration_bump = 2;
  asset_class_version_pda = version;
  extra_account_meta_list = AccountInfo.empty;
  roles_pda = AccountInfo.empty;
  roles_bump = 3;
}

abbrev keep_list : ℕ → List ExtraAccountMeta → Result (List ExtraAccountMeta)
keep_list room entries = ok entries

abbrev deployed : Deployed system (List ExtraAccountMeta)
deployed = record {
  accounts = expected (authorities runtime 7) 7 params;
  asset_configuration = record { asset_class_config_id = 1; asset_class_version_id = 1; bump = 2 };
  extra_account_meta_list = metas;
  roles = record { bump = 3; mask = 1 ∷ replicate 1023 0 };
}

runs : deploy_mint runtime system setup keep_list accounts params nothing ≡ ok deployed
unfolding deploy_mint set_up_mint create_mint_account initialize_extensions write_metadata
    write_fields initialize_extra_account_meta_list initialize is_caller_pda mask_of set_bits locate
    authorities as_ref temp_mint_authority_seeds
runs = refl

deploy_mint-Deployed_example :
    (data_is_empty accounts.asset_configuration_pda ≡ true)
    × (version.state ≡ asset_class_version_state_finalized)
    × (config deployed.accounts 7 ≡ expected (authorities runtime 7) 7 params)
    × (deployed.asset_configuration.asset_class_config_id ≡ version.config_id)
    × (deployed.asset_configuration.asset_class_version_id ≡ version.version)
    × (keep_list extra_account_meta_count metas ≡ ok metas)
    × ((q : ℕ) → HasRole deployed.roles q ↔ (q ≡ role_admin))
deploy_mint-Deployed_example =
    deploy_mint-Deployed runtime system setup config laws keep_list accounts params nothing runs
