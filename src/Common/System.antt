-- ===== src/Common/System.antt =====
-- The System program and the runtime, which are not in the repository: the lamports and the size of
-- accounts, and what changes them.
use asseto_solana_programs.Prelude.{ℕ, ◌+◌, ◌-◌, ◌≤◌, ◌≡◌, ◌≢◌, update}
use asseto_solana_programs.Errors.{Result, ok}
use asseto_solana_programs.Common.ProgramIds.{Pubkey}

pub record SystemProgram : Type 1 where
  pub Accounts : Type 0
  pub lamports : Accounts → Pubkey → ℕ
  pub data_len : Accounts → Pubkey → ℕ
  -- `Rent::minimum_balance`
  pub minimum_balance : ℕ → ℕ
  -- from, to, lamports, space, owner
  pub create_account : Pubkey → Pubkey → ℕ → ℕ → Pubkey → Accounts → Result Accounts
  -- account, owner
  pub assign : Pubkey → Pubkey → Accounts → Result Accounts
  -- from, to, lamports
  pub transfer : Pubkey → Pubkey → ℕ → Accounts → Result Accounts
  -- writes of a program to its own accounts: the lamports, the size, and zeros over the data
  pub set_lamports : Pubkey → ℕ → Accounts → Result Accounts
  pub resize : Pubkey → ℕ → Accounts → Result Accounts
  pub fill_zero : Pubkey → Accounts → Result Accounts

-- What is documented of them, where they succeed.
pub record SystemLaws (sys : SystemProgram) : Type 0 where
  pub create_account_moves :
      (from to : Pubkey) (amount space : ℕ) (owner : Pubkey) (l : sys.Accounts) {l' : sys.Accounts}
      → to ≢ from
      → sys.create_account from to amount space owner l ≡ ok l'
      → (amount ≤ sys.lamports l from)
        × (sys.lamports l'
            ≡ update
                (update (sys.lamports l) from (sys.lamports l from - amount))
                to
                (sys.lamports l to + amount))
        × (sys.data_len l' ≡ update (sys.data_len l) to space)
  pub assign_keeps :
      (account owner : Pubkey) (l : sys.Accounts) {l' : sys.Accounts}
      → sys.assign account owner l ≡ ok l'
      → (sys.lamports l' ≡ sys.lamports l) × (sys.data_len l' ≡ sys.data_len l)
  pub transfer_moves :
      (from to : Pubkey) (amount : ℕ) (l : sys.Accounts) {l' : sys.Accounts}
      → to ≢ from
      → sys.transfer from to amount l ≡ ok l'
      → (amount ≤ sys.lamports l from)
        × (sys.lamports l'
            ≡ update
                (update (sys.lamports l) from (sys.lamports l from - amount))
                to
                (sys.lamports l to + amount))
        × (sys.data_len l' ≡ sys.data_len l)
  pub set_lamports_sets :
      (account : Pubkey) (amount : ℕ) (l : sys.Accounts) {l' : sys.Accounts}
      → sys.set_lamports account amount l ≡ ok l'
      → (sys.lamports l' ≡ update (sys.lamports l) account amount)
        × (sys.data_len l' ≡ sys.data_len l)
  pub resize_sets :
      (account : Pubkey) (space : ℕ) (l : sys.Accounts) {l' : sys.Accounts}
      → sys.resize account space l ≡ ok l'
      → (sys.lamports l' ≡ sys.lamports l)
        × (sys.data_len l' ≡ update (sys.data_len l) account space)
  pub fill_zero_keeps :
      (account : Pubkey) (l : sys.Accounts) {l' : sys.Accounts}
      → sys.fill_zero account l ≡ ok l'
      → (sys.lamports l' ≡ sys.lamports l) × (sys.data_len l' ≡ sys.data_len l)
