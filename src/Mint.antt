-- ===== src/Mint.antt =====
-- programs/mint/src/instructions: issuing tokens, one account at a time or in a batch.
pub mod Laws
pub mod Supply
mod Tests
use asseto_solana_programs.Prelude.{
  ℕ, ⊤, ◌*◌, Bool, not, Option, none, some, List, [], ◌∷◌, length, ◌==◌, checked_add,
}
use asseto_solana_programs.Errors.{
  mint as mint_error, MintError, amount_overflow, Result, ok, ◌>>=◌, ◌>>◌, require, ok_or,
}
use asseto_solana_programs.Common.ProgramIds.{Pubkey, mint_program_id}
use asseto_solana_programs.Common.PdaSeeds.{Runtime, mint_authority_seeds}
use asseto_solana_programs.Common.State.{AccountInfo}
use asseto_solana_programs.Common.Guards.{
  AssetAccounts, require_role, require_active, require_functionality, verify_control_list_pda,
}
use asseto_solana_programs.Common.Token.{TokenProgram}
use asseto_solana_programs.Common.Roles.{role_issuer}
use asseto_solana_programs.Common.Functionalities.{mint_mint}
use asseto_solana_programs.TransferControl.{
  TransferControlMode, ControlListStatus, verify_transfer_control_mode,
}
use asseto_solana_programs.Cap.{MaxSupply, require_within_max_supply}

-- An account of a batch after the named ones: its address, and what it is as a control-list marker.
pub record RemainingAccount : Type 0 where
  pub key : Pubkey
  pub as_control_list : AccountInfo ControlListStatus

-- `try_fold(0u64, checked_add)`
unfoldable pub batch_total : ℕ → List ℕ → Option ℕ
batch_total acc [] = some acc
batch_total acc (amount ∷ amounts) = elim (checked_add acc amount) [
  | none ↦ none
  | some sum ↦ batch_total sum amounts
]

module _ (rt : Runtime) (tp : TokenProgram) (mint : Pubkey) where
  open tp use {Ledger, mint_state, mint_to}

  unfoldable pub mint_authority : Pubkey
  mint_authority = (rt.find_program_address (mint_authority_seeds mint) mint_program_id).0

  unfoldable pub mint_tokens :
      AssetAccounts
      → AccountInfo TransferControlMode
      → AccountInfo ControlListStatus
      → AccountInfo MaxSupply
      → Pubkey
      → ℕ
      → Ledger
      → Result Ledger
  unfolding mint_authority
  mint_tokens a mode_pda control_list_pda max_supply_pda destination amount ledger = do
    require_role a.authority_roles_pda role_issuer
    require_active a.deactivate_pda
    require_functionality a.asset_class_version_pda mint_mint
    verify_transfer_control_mode mode_pda (control_list_pda ∷ [])
    require_within_max_supply (mint_state mint ledger) max_supply_pda a.asset_class_version_pda
        amount
    mint_to mint destination mint_authority amount ledger

  -- The loop over `chunks_exact(2)` that checks and collects the control-list accounts.
  unfoldable pub control_list_pdas :
      List RemainingAccount → Result (List (AccountInfo ControlListStatus))
  control_list_pdas [] = ok []
  control_list_pdas (_ ∷ []) = ok []
  control_list_pdas (destination ∷ marker ∷ remaining) = do
    verify_control_list_pda rt marker.key destination.key mint
    pdas ← control_list_pdas remaining
    ok (marker.as_control_list ∷ pdas)

  -- The loop that mints; the destination of a round stands at `2 * i`.
  unfoldable pub mint_all : List ℕ → List RemainingAccount → Ledger → Result Ledger
  unfolding mint_authority
  mint_all [] remaining ledger = ok ledger
  mint_all (_ ∷ _) [] ledger = ok ledger
  mint_all (_ ∷ _) (_ ∷ []) ledger = ok ledger
  mint_all (amount ∷ amounts) (destination ∷ _ ∷ remaining) ledger =
      mint_to mint destination.key mint_authority amount ledger >>= λ ledger'.
      mint_all amounts remaining ledger'

  unfoldable pub batch_mint :
      AssetAccounts
      → AccountInfo TransferControlMode
      → AccountInfo MaxSupply
      → List ℕ
      → List RemainingAccount
      → Ledger
      → Result Ledger
  unfolding mint_all control_list_pdas batch_total
  batch_mint a mode_pda max_supply_pda amounts remaining ledger = do
    require (not (length amounts == 0)) (mint_error MintError.empty_batch)
    require (length remaining == length amounts * 2)
        (mint_error MintError.invalid_remaining_accounts)
    require_role a.authority_roles_pda role_issuer
    require_active a.deactivate_pda
    require_functionality a.asset_class_version_pda mint_mint
    total ← ok_or (batch_total 0 amounts) (mint_error amount_overflow)
    require_within_max_supply (mint_state mint ledger) max_supply_pda a.asset_class_version_pda
        total
    pdas ← control_list_pdas remaining
    verify_transfer_control_mode mode_pda pdas
    mint_all amounts remaining ledger
