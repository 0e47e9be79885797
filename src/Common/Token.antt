-- ===== src/Common/Token.antt =====
-- Token-2022, which is not in the repository: its accounts and the instructions that the programs
-- invoke, over a ledger of its own.
use asseto_solana_programs.Prelude.{ℕ}
use asseto_solana_programs.Errors.{Result}
use asseto_solana_programs.Common.ProgramIds.{Pubkey}
use asseto_solana_programs.Common.State.{MintState, TokenAccount}

pub record TokenProgram : Type 1 where
  pub Ledger : Type 0
  -- what an account's data unpacks to
  pub mint_state : Pubkey → Ledger → Result MintState
  pub token_account : Pubkey → Ledger → Result TokenAccount
  -- from, mint, to, authority, amount, decimals
  pub transfer_checked : Pubkey → Pubkey → Pubkey → Pubkey → ℕ → ℕ → Ledger → Result Ledger
  -- mint, destination, authority, amount
  pub mint_to : Pubkey → Pubkey → Pubkey → ℕ → Ledger → Result Ledger
  -- account, mint, permissioned-burn authority, authority, amount
  pub permissioned_burn : Pubkey → Pubkey → Pubkey → Pubkey → ℕ → Ledger → Result Ledger
  -- mint, authority
  pub pause : Pubkey → Pubkey → Ledger → Result Ledger
  pub resume : Pubkey → Pubkey → Ledger → Result Ledger
