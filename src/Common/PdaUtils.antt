-- ===== src/Common/PdaUtils.antt =====
-- programs/common/src/pda_utils.rs: how the programs create, resize and close the accounts that they
-- manage themselves.
pub mod Laws
use asseto_solana_programs.Prelude.{
  ℕ, ◌-◌, true, false, List, [], ◌∷◌, ◌++◌, Bytes, saturating_sub, checked_add, ltb, ◌==◌,
}
use asseto_solana_programs.Errors.{external, arithmetic_overflow, Result, ok, ◌>>=◌, ok_or}
use asseto_solana_programs.Common.ProgramIds.{Pubkey}
use asseto_solana_programs.Common.System.{SystemProgram}

unfoldable pub build_pda_signer_seeds : List Bytes → ℕ → List Bytes
build_pda_signer_seeds seeds bump = seeds ++ ((bump ∷ []) ∷ [])

module _ (sys : SystemProgram) where
  open sys use {
    Accounts, lamports, data_len, minimum_balance, create_account, assign, transfer, set_lamports,
    resize, fill_zero,
  }

  -- What is short is paid in, what is over is paid back.
  unfoldable pub settle_rent : Pubkey → Pubkey → ℕ → Accounts → Result Accounts
  settle_rent payer pda new_minimum_lamports l =
      let current_lamports = lamports l pda in
      let rent_deficit = saturating_sub new_minimum_lamports current_lamports in
      let refund = saturating_sub current_lamports new_minimum_lamports in
      elim (ltb 0 rent_deficit) [
        | true ↦ transfer payer pda rent_deficit l
        | false ↦ elim (ltb 0 refund) [
          | true ↦ do
            l1 ← set_lamports pda (current_lamports - refund) l
            balance ← ok_or (checked_add (lamports l1 payer) refund) (external arithmetic_overflow)
            set_lamports payer balance l1
          | false ↦ ok l
        ]
      ]

  unfoldable pub resize_pda : Pubkey → Pubkey → ℕ → Accounts → Result Accounts
  unfolding settle_rent
  resize_pda payer pda new_space l = elim (new_space == data_len l pda) [
    | true ↦ ok l
    | false ↦ settle_rent payer pda (minimum_balance new_space) l >>= λ l'. resize pda new_space l'
  ]

  unfoldable pub create_or_adopt_pda : Pubkey → Pubkey → Pubkey → ℕ → Accounts → Result Accounts
  unfolding resize_pda
  create_or_adopt_pda payer pda program_id space l = elim (lamports l pda == 0) [
    | true ↦ create_account payer pda (minimum_balance space) space program_id l
    | false ↦ assign pda program_id l >>= λ l'. resize_pda payer pda space l'
  ]

  unfoldable pub close_pda : Pubkey → Pubkey → Accounts → Result Accounts
  close_pda pda authority l = do
    l1 ← set_lamports pda 0 l
    balance ←
        ok_or (checked_add (lamports l1 authority) (lamports l pda)) (external arithmetic_overflow)
    l2 ← set_lamports authority balance l1
    fill_zero pda l2
