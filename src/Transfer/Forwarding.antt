-- ===== src/Transfer/Forwarding.antt =====
-- What the three transferring instructions forward to the hook, against what the hook's list asks for.
use asseto_solana_programs.Prelude.{◌≡◌, refl, some, List, [], ◌∷◌, Bytes}
use asseto_solana_programs.Common.ProgramIds.{
  Pubkey, deploy_program_id, transfer_control_program_id,
}
use asseto_solana_programs.Common.PdaSeeds.{Runtime, control_list_seeds, asset_configuration_seeds}
use asseto_solana_programs.Common.State.{AssetConfiguration}
use asseto_solana_programs.Common.HookAccounts.{HookAccounts, constrained, ordered}
use asseto_solana_programs.TransferHook.Metas.{metas}
use asseto_solana_programs.TransferHook.Metas.Resolution.{
  Resolver, resolve_all, configuration_bytes, pda, execute_accounts, metas-execute_accounts,
}
use asseto_solana_programs.Operations.{controller_hook_accounts, hold_hook_accounts}
use asseto_solana_programs.Transfer.{BatchTransferTokens, hook_accounts}

module _ (rt : Runtime) (data_of : Pubkey → Bytes) (r : Resolver rt data_of) where
  -- After the list and the hook's program come exactly the accounts that the list leads to, in its
  -- order, and these are the ones that the hook's constraints ask for.
  abbrev pub Serves : Pubkey → Pubkey → Pubkey → Pubkey → AssetConfiguration → HookAccounts → Type 0
  Serves source mint destination authority c h =
      (keys : List Pubkey) × (resolve_all rt data_of r metas
          (source ∷ mint ∷ destination ∷ authority ∷ h.extra_account_meta_list ∷ [])
        ≡ some keys)
      × (keys ≡ execute_accounts rt source mint destination c)
      × (ordered h ≡ h.extra_account_meta_list ∷ h.transfer_hook_program ∷ keys)

  constrained-Serves :
      (source mint destination authority : Pubkey) (c : AssetConfiguration)
      → data_of (pda rt (asset_configuration_seeds mint) deploy_program_id) ≡ configuration_bytes c
      → Serves source mint destination authority c (
          constrained rt mint source
            (pda rt (control_list_seeds mint destination) transfer_control_program_id)
            c)
  unfolding constrained
  constrained-Serves source mint destination authority c written = (
    execute_accounts rt source mint destination c,
    metas-execute_accounts rt data_of r source mint destination authority
        (constrained rt mint source
          (pda rt (control_list_seeds mint destination) transfer_control_program_id)
          c).extra_account_meta_list
        c written,
    refl,
    refl,
  )

  -- A leg of a batch whose control-list account is the destination's, a controller's transfer and the
  -- settlement of a hold each forward what the hook reads: after the list and the hook's program exactly
  -- the accounts that the list leads to, in its order, which are those of the hook's constraints.
  pub hook_accounts-Serves :
      (b : BatchTransferTokens) (destination authority : Pubkey)
      → data_of (pda rt (asset_configuration_seeds b.mint) deploy_program_id)
        ≡ configuration_bytes b.asset_configuration
      → Serves b.source b.mint destination b.source_owner b.asset_configuration (
          hook_accounts rt b
            (pda rt (control_list_seeds b.mint destination) transfer_control_program_id))
        × Serves b.source b.mint destination authority b.asset_configuration
            (controller_hook_accounts rt b.mint b.source destination b.asset_configuration)
        × Serves b.source b.mint destination authority b.asset_configuration
            (hold_hook_accounts rt b.mint b.source destination b.asset_configuration)
  unfolding hook_accounts controller_hook_accounts hold_hook_accounts
  hook_accounts-Serves b destination authority written = (
    constrained-Serves b.source b.mint destination b.source_owner b.asset_configuration written,
    constrained-Serves b.source b.mint destination authority b.asset_configuration written,
    constrained-Serves b.source b.mint destination authority b.asset_configuration written,
  )
