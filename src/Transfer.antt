-- ===== src/Transfer.antt =====
-- programs/transfer/src/instructions/batch_transfer.rs: one holder's transfers to several accounts,
-- each with the accounts that the transfer hook reads.
pub mod Forwarding
mod Tests
use asseto_solana_programs.Prelude.{
  ℕ, ⊤, ◌*◌, Bool, true, false, not, List, [], ◌∷◌, ◌==◌, length, leb,
}
use asseto_solana_programs.Errors.{
  external, constraint_failed, transfer, TransferError, Result, ok, err, ◌>>=◌, ◌>>◌, require,
}
use asseto_solana_programs.Common.ProgramIds.{
  Pubkey, deploy_program_id, factory_program_id, deactivate_program_id, transfer_control_program_id,
  freeze_program_id, hold_program_id, transfer_hook_program_id,
}
use asseto_solana_programs.Common.PdaSeeds.{
  Runtime, control_list_seeds, freeze_state_seeds, hold_position_seeds, asset_configuration_seeds,
  asset_class_version_seeds, deactivate_seeds, transfer_control_mode_seeds,
  extra_account_metas_seeds,
}
use asseto_solana_programs.Common.State.{AssetConfiguration, MintState}
use asseto_solana_programs.Common.HookAccounts.{
  HookAccounts, constrained, AccountMeta, append_metas, append_infos,
}

-- The `transfer_checked` instruction, with the accounts that its builder lists.
pub record TransferChecked : Type 0 where
  pub source : Pubkey
  pub mint : Pubkey
  pub destination : Pubkey
  pub authority : Pubkey
  pub amount : ℕ
  pub decimals : ℕ
  pub accounts : List AccountMeta

-- Token-2022, as far as this program uses it: what a mint unpacks to, the instruction's builder, and
-- its invocation with the accounts that are at hand.
pub record HookedTransfers : Type 1 where
  pub Ledger : Type 0
  pub mint_state : Pubkey → Ledger → Result MintState
  -- source, mint, destination, authority, amount, decimals
  pub transfer_checked : Pubkey → Pubkey → Pubkey → Pubkey → ℕ → ℕ → Result TransferChecked
  pub invoke : TransferChecked → List Pubkey → Ledger → Result Ledger

-- `BatchTransferTokens`: the accounts that the instruction names itself.
pub record BatchTransferTokens : Type 0 where
  pub source_owner : Pubkey
  pub source : Pubkey
  pub mint : Pubkey
  pub asset_configuration : AssetConfiguration

-- The accounts of one leg, at the addresses of their constraints; the destination's marker is the
-- account that was passed.
unfoldable pub hook_accounts : Runtime → BatchTransferTokens → Pubkey → HookAccounts
unfolding constrained
hook_accounts rt b destination_control_list_pda =
    constrained rt b.mint b.source destination_control_list_pda b.asset_configuration

module _ (rt : Runtime) (tp : HookedTransfers) where
  open tp use {Ledger, mint_state, transfer_checked, invoke}

  unfoldable pub transfer_leg :
      BatchTransferTokens → ℕ → Pubkey → Pubkey → ℕ → Ledger → Result Ledger
  unfolding hook_accounts
  transfer_leg b decimals destination destination_control_list_pda amount ledger = do
    transfer_ix ← transfer_checked b.source b.mint destination b.source_owner amount decimals
    let h = hook_accounts rt b destination_control_list_pda
    invoke (record transfer_ix { accounts = append_metas h transfer_ix.accounts })
        (append_infos h (b.source ∷ b.mint ∷ destination ∷ b.source_owner ∷ [])) ledger

  -- The loop: two remaining accounts for each amount; to index past them would abort.
  unfoldable pub transfer_legs :
      BatchTransferTokens → ℕ → List ℕ → List Pubkey → Ledger → Result Ledger
  transfer_legs b decimals [] rest ledger = ok ledger
  transfer_legs b decimals (amount ∷ amounts) (destination ∷ pda ∷ rest) ledger =
      transfer_leg b decimals destination pda amount ledger >>= λ ledger'.
      transfer_legs b decimals amounts rest ledger'
  transfer_legs b decimals (amount ∷ amounts) (_ ∷ []) ledger = err (external constraint_failed)
  transfer_legs b decimals (amount ∷ amounts) [] ledger = err (external constraint_failed)

  unfoldable pub batch_transfer :
      BatchTransferTokens → List ℕ → List Pubkey → Ledger → Result Ledger
  unfolding transfer_legs
  batch_transfer b amounts remaining_accounts ledger = do
    require (not (length amounts == 0)) (transfer TransferError.empty_batch)
    require (length remaining_accounts == length amounts * 2)
        (transfer TransferError.invalid_remaining_accounts)
    mint ← mint_state b.mint ledger
    transfer_legs b mint.decimals amounts remaining_accounts ledger
