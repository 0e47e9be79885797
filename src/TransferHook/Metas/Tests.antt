-- ===== src/TransferHook/Metas/Tests.antt =====
-- The accounts of one transfer, found by the list.
use asseto_solana_programs.Prelude.{true, ◌≡◌, refl, Option, some, List, [], ◌∷◌, Bytes}
use asseto_solana_programs.Errors.{ok}
use asseto_solana_programs.Common.ProgramIds.{Pubkey}
use asseto_solana_programs.Common.State.{AccountInfo, AssetConfiguration}
use asseto_solana_programs.Common.Examples.{runtime}
use asseto_solana_programs.TransferHook.Metas.{
  ExtraAccountMeta, new_with_pubkey, new_external_pda_with_seeds, metas,
  initialize_extra_account_meta_list,
}
use asseto_solana_programs.TransferHook.Metas.Resolution.{
  and_then, nth, all_seeds, configuration_bytes, Resolver, resolve_all, execute_accounts,
  metas-execute_accounts,
}

abbrev pub configuration : AssetConfiguration
configuration = record { asset_class_config_id = 3; asset_class_version_id = 2; bump = 1 }

abbrev pub data_of : Pubkey → Bytes
data_of _ = configuration_bytes configuration

abbrev find : ExtraAccountMeta → List Pubkey → Option Pubkey
find (new_with_pubkey key _ _) accounts = some key
find (new_external_pda_with_seeds index seeds _ _) accounts =
    and_then (nth accounts index) (λ program.
      and_then (all_seeds data_of accounts seeds)
        (λ bytes. some (runtime.find_program_address bytes program).0))

abbrev pub resolver : Resolver runtime data_of
resolver = record {
  resolve = find;
  resolve_pubkey = λ key a b accounts. refl;
  resolve_external_pda = λ index seeds a b accounts. refl;
}

metas-execute_accounts_example :
    resolve_all runtime data_of resolver metas (20 ∷ 7 ∷ 21 ∷ 9 ∷ 30 ∷ [])
    ≡ some (execute_accounts runtime 20 7 21 configuration)
metas-execute_accounts_example =
    metas-execute_accounts runtime data_of resolver 20 7 21 9 30 configuration refl

written :
    initialize_extra_account_meta_list (λ room listed. ok listed) true AccountInfo.empty ≡ ok metas
unfolding initialize_extra_account_meta_list
written = refl
