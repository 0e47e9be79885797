-- ===== src/TransferHook/Metas/Resolution.antt =====
-- The accounts that the list leads to, against those that programs/transfer-hook/src/instructions
-- /execute.rs asks for by its constraints.
use asseto_solana_programs.Prelude.{
  ℕ, zero, suc, ◌≡◌, Bool, Option, none, some, List, [], ◌∷◌, ◌++◌, Bytes, le_bytes,
}
use asseto_solana_programs.Common.ProgramIds.{
  Pubkey, deploy_program_id, factory_program_id, deactivate_program_id, transfer_control_program_id,
  freeze_program_id, hold_program_id,
}
use asseto_solana_programs.Common.PdaSeeds.{
  Runtime, as_ref, control_list_seeds, freeze_state_seeds, hold_position_seeds,
  asset_configuration_seeds, asset_class_version_seeds, deactivate_seeds,
  transfer_control_mode_seeds,
}
use asseto_solana_programs.Common.State.{AssetConfiguration, asset_configuration_discriminator}
use asseto_solana_programs.TransferHook.Metas.{
  Seed, literal, account_key, account_data, ExtraAccountMeta, new_with_pubkey,
  new_external_pda_with_seeds, metas,
}

abbrev pub and_then {ℓ κ} : {A : Type ℓ} {B : Type κ} → Option A → (A → Option B) → Option B
and_then none next = none
and_then (some a) next = next a

abbrev pub nth {ℓ} : {A : Type ℓ} → List A → ℕ → Option A
nth [] _ = none
nth (x ∷ xs) zero = some x
nth (x ∷ xs) (suc i) = nth xs i

-- The first n bytes, if there are so many.
abbrev pub first_bytes : ℕ → Bytes → Option Bytes
first_bytes zero bs = some []
first_bytes (suc n) [] = none
first_bytes (suc n) (b ∷ bs) = and_then (first_bytes n bs) (λ rest. some (b ∷ rest))

abbrev pub skip_bytes : ℕ → Bytes → Bytes
skip_bytes zero bs = bs
skip_bytes (suc n) [] = []
skip_bytes (suc n) (b ∷ bs) = skip_bytes n bs

-- What an account of the deploy program holds.
abbrev pub configuration_bytes : AssetConfiguration → Bytes
configuration_bytes c =
    asset_configuration_discriminator
    ++ le_bytes 8 c.asset_class_config_id
    ++ le_bytes 8 c.asset_class_version_id
    ++ (c.bump ∷ [])

-- The bytes that a seed stands for, among the accounts found so far.
abbrev pub seed_bytes : (Pubkey → Bytes) → List Pubkey → Seed → Option Bytes
seed_bytes data_of accounts (literal bytes) = some bytes
seed_bytes data_of accounts (account_key index) =
    and_then (nth accounts index) (λ key. some (as_ref key))
seed_bytes data_of accounts (account_data account_index data_index length) =
    and_then (nth accounts account_index)
      (λ key. first_bytes length (skip_bytes data_index (data_of key)))

abbrev pub all_seeds : (Pubkey → Bytes) → List Pubkey → List Seed → Option (List Bytes)
all_seeds data_of accounts [] = some []
all_seeds data_of accounts (s ∷ ss) =
    and_then (seed_bytes data_of accounts s)
      (λ b. and_then (all_seeds data_of accounts ss) (λ bs. some (b ∷ bs)))

-- How the client library finds the account of one entry from those before it.
pub record Resolver (rt : Runtime) (data_of : Pubkey → Bytes) : Type 0 where
  pub resolve : ExtraAccountMeta → List Pubkey → Option Pubkey
  pub resolve_pubkey :
      (key : Pubkey) (is_signer is_writable : Bool) (accounts : List Pubkey)
      → resolve (new_with_pubkey key is_signer is_writable) accounts ≡ some key
  pub resolve_external_pda :
      (index : ℕ) (seeds : List Seed) (is_signer is_writable : Bool) (accounts : List Pubkey)
      → resolve (new_external_pda_with_seeds index seeds is_signer is_writable) accounts
        ≡ and_then (nth accounts index) (λ program.
          and_then
            (all_seeds data_of accounts seeds)
            (λ bytes. some (rt.find_program_address bytes program).0))

module _ (rt : Runtime) where
  -- The account that a `seeds` constraint asks for.
  abbrev pub pda : List Bytes → Pubkey → Pubkey
  pda seeds program = (rt.find_program_address seeds program).0

  -- The accounts of `Execute` after the five that the interface fixes, by their constraints.
  abbrev pub execute_accounts : Pubkey → Pubkey → Pubkey → AssetConfiguration → List Pubkey
  execute_accounts source_token mint destination_token asset_configuration =
      deploy_program_id
      ∷ pda (asset_configuration_seeds mint) deploy_program_id
      ∷ factory_program_id
      ∷ pda
          (asset_class_version_seeds asset_configuration.asset_class_config_id
            asset_configuration.asset_class_version_id)
          factory_program_id
      ∷ deactivate_program_id
      ∷ pda (deactivate_seeds mint) deactivate_program_id
      ∷ transfer_control_program_id
      ∷ pda (transfer_control_mode_seeds mint) transfer_control_program_id
      ∷ pda (control_list_seeds mint source_token) transfer_control_program_id
      ∷ pda (control_list_seeds mint destination_token) transfer_control_program_id
      ∷ freeze_program_id
      ∷ pda (freeze_state_seeds mint source_token) freeze_program_id
      ∷ hold_program_id
      ∷ pda (hold_position_seeds mint source_token) hold_program_id
      ∷ []

module _ (rt : Runtime) (data_of : Pubkey → Bytes) (r : Resolver rt data_of) where
  open r use {resolve, resolve_pubkey, resolve_external_pda}

  -- The accounts of all entries, each found from those before it.
  abbrev pub resolve_all : List ExtraAccountMeta → List Pubkey → Option (List Pubkey)
  resolve_all [] accounts = some []
  resolve_all (m ∷ ms) accounts =
      and_then (resolve m accounts)
        (λ key. and_then (resolve_all ms (accounts ++ (key ∷ []))) (λ keys. some (key ∷ keys)))

  module _ (source mint destination owner meta_list : Pubkey) (c : AssetConfiguration) where
    -- On an asset's configuration as the deploy program writes it, the entries of the list lead, in
    -- order, to exactly the accounts that the constraints of `Execute` ask for.
    pub metas-execute_accounts :
        data_of (pda rt (asset_configuration_seeds mint) deploy_program_id) ≡ configuration_bytes c
        → resolve_all metas (source ∷ mint ∷ destination ∷ owner ∷ meta_list ∷ [])
          ≡ some (execute_accounts rt source mint destination c)
    unfolding asset_configuration_seeds asset_class_version_seeds deactivate_seeds
        transfer_control_mode_seeds control_list_seeds freeze_state_seeds hold_position_seeds
    metas-execute_accounts written = simp (resolve_pubkey, resolve_external_pda, written)
