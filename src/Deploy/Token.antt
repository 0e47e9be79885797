-- ===== src/Deploy/Token.antt =====
-- The instructions of Token-2022 that set up a mint, which are not in the repository.
use asseto_solana_programs.Prelude.{ℕ, Option, List, Bytes}
use asseto_solana_programs.Errors.{Result}
use asseto_solana_programs.Common.ProgramIds.{Pubkey}
use asseto_solana_programs.Common.System.{SystemProgram}
use asseto_solana_programs.MetadataUpdate.{TokenMetadata, Field}

pub data ExtensionType : Type 0 where
  permanent_delegate metadata_pointer pausable transfer_hook permissioned_burn : ExtensionType

pub record MintSetup (sys : SystemProgram) : Type 0 where
  -- `ExtensionType::try_calculate_account_len`, `TokenMetadata::tlv_size_of`
  pub account_len : List ExtensionType → Result ℕ
  pub tlv_size_of : TokenMetadata → Result ℕ
  -- the address of the token program
  pub token_program_id : Pubkey
  -- mint, authority, metadata address
  pub initialize_metadata_pointer :
      Pubkey → Option Pubkey → Option Pubkey → sys.Accounts → Result sys.Accounts
  -- mint, authority
  pub initialize_permanent_delegate : Pubkey → Pubkey → sys.Accounts → Result sys.Accounts
  pub initialize_permissioned_burn : Pubkey → Pubkey → sys.Accounts → Result sys.Accounts
  pub initialize_pausable : Pubkey → Pubkey → sys.Accounts → Result sys.Accounts
  -- mint, authority, hook program
  pub initialize_transfer_hook :
      Pubkey → Option Pubkey → Option Pubkey → sys.Accounts → Result sys.Accounts
  -- mint, mint authority, freeze authority, decimals
  pub initialize_mint2 : Pubkey → Pubkey → Option Pubkey → ℕ → sys.Accounts → Result sys.Accounts
  -- metadata, update authority, mint, mint authority, name, symbol, uri
  pub initialize_token_metadata :
      Pubkey → Pubkey → Pubkey → Pubkey → Bytes → Bytes → Bytes → sys.Accounts → Result sys.Accounts
  -- metadata, update authority
  pub update_field : Pubkey → Pubkey → Field → Bytes → sys.Accounts → Result sys.Accounts
  -- metadata, update authority, new one
  pub update_authority : Pubkey → Pubkey → Option Pubkey → sys.Accounts → Result sys.Accounts
  -- mint, new authority to mint, the current one
  pub set_authority_mint_tokens :
      Pubkey → Option Pubkey → Pubkey → sys.Accounts → Result sys.Accounts
