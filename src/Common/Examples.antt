-- ===== src/Common/Examples.antt =====
-- Concrete accounts, a concrete runtime and a concrete token ledger, for the tests.
use asseto_solana_programs.Prelude.{
  ℕ, ◌+◌, ◌-◌, true, false, List, [], ◌∷◌, Bytes, replicate, leb, if◌then◌else◌, update,
}
use asseto_solana_programs.Errors.{external, constraint_failed, Result, ok, err}
use asseto_solana_programs.Common.ProgramIds.{Pubkey}
use asseto_solana_programs.Common.PdaSeeds.{Runtime}
use asseto_solana_programs.Common.State.{empty, MintState, TokenAccount, AssetClassVersion, Roles}
use asseto_solana_programs.Common.Guards.{AssetAccounts}
use asseto_solana_programs.Common.Token.{TokenProgram}

abbrev byte_sum : Bytes → ℕ
byte_sum [] = 0
byte_sum (b ∷ bs) = b + byte_sum bs

abbrev seed_sum : List Bytes → ℕ
seed_sum [] = 0
seed_sum (s ∷ ss) = byte_sum s + seed_sum ss

-- Addresses told apart by the sum of their seeds.
abbrev pub runtime : Runtime
runtime = record { find_program_address = λ seeds program. (seed_sum seeds, 255) }

abbrev pub version : AssetClassVersion
version = record { config_id = 1; version = 1; state = 1; bump = 250; mask = replicate 8 255 }

abbrev pub every_role : Roles
every_role = record { bump = 251; mask = 255 ∷ 255 ∷ [] }

abbrev pub mint_state : ℕ → MintState
mint_state supply = record { supply = supply; decimals = 0; paused = ok false }

abbrev pub asset_accounts : AssetAccounts
asset_accounts = record {
  authority_roles_pda = every_role;
  mint = ok (mint_state 100);
  deactivate_pda = empty;
  asset_class_version_pda = version;
}

abbrev pub token_account : ℕ → TokenAccount
token_account amount = record { mint = 7; owner = 9; amount = amount; transferring = ok true }

pub record Book : Type 0 where
  pub supply : ℕ
  pub balance : Pubkey → ℕ

abbrev pub move : Pubkey → Pubkey → ℕ → Book → Result Book
move from to amount book =
    if leb amount (book.balance from)
    then ok (record book {
      balance =
          let rest = update book.balance from (book.balance from - amount) in
          update rest to (rest to + amount);
    })
    else err (external constraint_failed)

abbrev pub burn : Pubkey → ℕ → Book → Result Book
burn account amount book =
    if leb amount (book.balance account)
    then ok (record {
      supply = book.supply - amount;
      balance = update book.balance account (book.balance account - amount);
    })
    else err (external constraint_failed)

abbrev pub token_program : TokenProgram
token_program = record {
  Ledger = Book;
  mint_state = λ mint book. ok (mint_state book.supply);
  token_account = λ key book. ok (token_account (book.balance key));
  transfer_checked = λ from mint to authority amount decimals book. move from to amount book;
  mint_to = λ mint to authority amount book. ok (record {
    supply = book.supply + amount;
    balance = update book.balance to (book.balance to + amount);
  });
  permissioned_burn = λ account mint burner authority amount book. burn account amount book;
  pause = λ mint authority book. ok book;
  resume = λ mint authority book. ok book;
}

-- 50 tokens in account 20, and none elsewhere.
abbrev pub book : Book
book = record { supply = 50; balance = update (λ k. 0) 20 50 }
