-- ===== src/Deploy/Outcome.antt =====
-- The asset that a deployment leaves: its mint, its configuration, its hook's list and its first admin.
use asseto_solana_programs.Prelude.{
  ℕ, ◌≡◌, refl, ap, sym, subst, ◌∙◌, ◌↔◌, inl, inr, true, none, some, List, [], arith, ◌==◌,
}
use asseto_solana_programs.Errors.{
  Error, external, constraint_failed, common, asset_class_version_not_finalized, transfer_hook,
  invalid_account_size, Result, ok, err, require, >>=-eq-ok, >>-eq-ok, ok_inj, Result-cases,
}
use asseto_solana_programs.Common.ProgramIds.{Pubkey}
use asseto_solana_programs.Common.PdaSeeds.{Runtime}
use asseto_solana_programs.Common.State.{
  AccountInfo, data_is_empty, asset_class_version_state_finalized,
}
use asseto_solana_programs.Common.Guards.{map_err}
use asseto_solana_programs.Common.Roles.{role_admin}
use asseto_solana_programs.Common.System.{SystemProgram}
use asseto_solana_programs.TransferHook.Metas.{
  ExtraAccountMeta, extra_account_meta_count, metas, initialize_extra_account_meta_list,
}
use asseto_solana_programs.AccessControl.{initialize}
use asseto_solana_programs.AccessControl.Initial.{initialize-HasRole}
use asseto_solana_programs.AccessControl.Laws.{HasRole}
use asseto_solana_programs.Deploy.Token.{MintSetup}
use asseto_solana_programs.Deploy.{
  DeployMintParams, Authorities, authorities, create_mint_account, initialize_extensions,
  write_fields, write_metadata, set_up_mint, DeployMint, Deployed, deploy_mint,
}
use asseto_solana_programs.Deploy.Setup.{
  MintConfig, MintSetupLaws, with_fields, expected, extended, initialize_extensions_lem,
  write_fields_lem,
}

module _ (sys : SystemProgram) (ms : MintSetup sys) (config : sys.Accounts → Pubkey → MintConfig)
    (laws : MintSetupLaws sys ms config) (auth : Authorities) (mint : Pubkey)
    (params : DeployMintParams) where
  abbrev described : MintConfig → MintConfig
  described c = record c {
    update_authority = some auth.metadata_update_authority;
    metadata = with_fields params.additional_metadata (record {
      name = params.name;
      symbol = params.symbol;
      uri = params.uri;
      additional_metadata = [];
    });
  }

  write_metadata_lem :
      (l : sys.Accounts) {l' : sys.Accounts}
      → write_metadata sys ms auth mint params l ≡ ok l'
      → config l' mint ≡ described (config l mint)
  unfolding write_metadata
  write_metadata_lem l {l'} h =
      let temp = auth.temp_mint_authority in
      let (l1, a1, h1) =
        >>=-eq-ok
          (ms.initialize_token_metadata mint temp mint temp params.name params.symbol params.uri l)
          _ {b = l'} h in
      let (l2, a2, h2) =
        >>=-eq-ok (write_fields sys ms auth mint params.additional_metadata l1) _ {b = l'} h1 in
      let e1 = laws.token_metadata_law mint temp temp params.name params.symbol params.uri l a1 in
      let e2 = write_fields_lem sys ms config laws auth mint params.additional_metadata l1 a2 in
      let e3 = laws.update_authority_law mint temp (some auth.metadata_update_authority) l2 h2 in
      rw (e3, e2, e1) refl

  set_up_mint-expected :
      (payer : Pubkey) (l : sys.Accounts) {l' : sys.Accounts}
      → set_up_mint sys ms auth payer mint params l ≡ ok l'
      → config l' mint ≡ expected auth mint params
  unfolding set_up_mint extended
  set_up_mint-expected payer l {l'} h =
      let temp = auth.temp_mint_authority in
      let (l1, _, h1) = >>=-eq-ok (create_mint_account sys ms payer mint params l) _ {b = l'} h in
      let (l2, a2, h2) = >>=-eq-ok (initialize_extensions sys ms auth mint l1) _ {b = l'} h1 in
      let (l3, a3, h3) =
        >>=-eq-ok (ms.initialize_mint2 mint temp none params.decimals l2) _ {b = l'} h2 in
      let (l4, a4, h4) = >>=-eq-ok (write_metadata sys ms auth mint params l3) _ {b = l'} h3 in
      let e2 = initialize_extensions_lem sys ms config laws auth mint l1 a2 in
      let e3 = laws.mint2_law mint temp none params.decimals l2 a3 in
      let e4 = write_metadata_lem l3 a4 in
      let e5 = laws.set_authority_law mint (some auth.mint_authority) temp l4 h4 in
      rw (e5, e4, e3, e2) refl

module _ (rt : Runtime) (sys : SystemProgram) (ms : MintSetup sys)
    (config : sys.Accounts → Pubkey → MintConfig) (laws : MintSetupLaws sys ms config)
    {Written : Type 0} (init : ℕ → List ExtraAccountMeta → Result Written) where
  listed :
      (pda : AccountInfo Written) {written : Written}
      → initialize_extra_account_meta_list init true pda ≡ ok written
      → init extra_account_meta_count metas ≡ ok written
  unfolding initialize_extra_account_meta_list
  listed pda {written} h =
      let (_, h1) =
        >>-eq-ok (require (data_is_empty pda) (external constraint_failed)) _ {b = written} h in
      elim (Result-cases (init extra_account_meta_count metas)) [
        | inl (w, e) ↦
            e ∙ subst (λ r. map_err r (transfer_hook invalid_account_size) ≡ ok written) e h1
        | inr (code, e) ↦ absurd (
            refused (subst (λ r. map_err r (transfer_hook invalid_account_size) ≡ ok written) e h1))
      ]
    where
      refused : {e : Error} {w : Written} → err e ≡ ok w → ⊥
      refused h = cc

  -- A deployment that succeeds is of a finalized version, for a mint that has no configuration yet. It
  -- leaves a mint with exactly the expected extensions, authorities and metadata, the configuration with
  -- the version's numbers, the hook's list with its 14 entries, and roles of the deployer that are the
  -- admin's and no other.
  pub deploy_mint-Deployed :
      (d : DeployMint Written) (params : DeployMintParams) (l : sys.Accounts)
      {out : Deployed sys Written}
      → deploy_mint rt sys ms init d params l ≡ ok out
      → (data_is_empty d.asset_configuration_pda ≡ true)
        × (d.asset_class_version_pda.state ≡ asset_class_version_state_finalized)
        × (config out.accounts d.mint ≡ expected (authorities rt d.mint) d.mint params)
        × (out.asset_configuration.asset_class_config_id ≡ d.asset_class_version_pda.config_id)
        × (out.asset_configuration.asset_class_version_id ≡ d.asset_class_version_pda.version)
        × (init extra_account_meta_count metas ≡ ok out.extra_account_meta_list)
        × ((q : ℕ) → HasRole out.roles q ↔ (q ≡ role_admin))
  unfolding deploy_mint
  deploy_mint-Deployed d params l {out} h =
      let auth = authorities rt d.mint in
      let (free, h1) =
        >>-eq-ok (require (data_is_empty d.asset_configuration_pda) (external constraint_failed)) _
          {b = out} h in
      let (final, h2) =
        >>-eq-ok
          (require (d.asset_class_version_pda.state == asset_class_version_state_finalized)
            (common asset_class_version_not_finalized))
          _ {b = out} h1 in
      let (accounts, made, h3) =
        >>=-eq-ok (set_up_mint sys ms auth d.payer d.mint params l) _ {b = out} h2 in
      let (written, list, h4) =
        >>=-eq-ok (initialize_extra_account_meta_list init true d.extra_account_meta_list) _
          {b = out} h3 in
      let (roles, granted, w) =
        >>=-eq-ok (initialize rt d.mint auth.temp_mint_authority d.roles_bump d.roles_pda) _
          {b = out} h4 in
      let e = ok_inj w in
      (
        ground (arith, free),
        ground (arith, final),
        ap (λ x. config x.accounts d.mint) (sym e)
            ∙ set_up_mint-expected sys ms config laws auth d.mint params d.payer l made,
        ap (λ x. x.asset_configuration.asset_class_config_id) (sym e),
        ap (λ x. x.asset_configuration.asset_class_version_id) (sym e),
        listed d.extra_account_meta_list list ∙ ap (λ x. ok x.extra_account_meta_list) e,
        λ q.
            subst (λ r. HasRole r q ↔ (q ≡ role_admin)) (ap (λ x. x.roles) e)
              (initialize-HasRole rt d.mint auth.temp_mint_authority d.roles_bump d.roles_pda
                granted q),
      )
