-- ===== src/Hold/Lien.antt =====
-- The lien on one token account: its ledger, its hold position and every hold recorded against it, and
-- the transactions that can change them.
pub mod Sums
pub mod Records
pub mod Invariant
pub mod Version
pub mod Resolution
use asseto_solana_programs.Prelude.{
  ℕ, ⊤, ◌+◌, ◌≤◌, ◌≡◌, Bool, true, false, List, [], ◌∷◌, Option, none, some,
}
use asseto_solana_programs.Prelude.Int.{ℤ}
use asseto_solana_programs.Errors.{Result, ok}
use asseto_solana_programs.Common.ProgramIds.{Pubkey}
use asseto_solana_programs.Common.PdaSeeds.{Runtime}
use asseto_solana_programs.Common.State.{AccountInfo, AssetClassVersion, HoldPosition, TokenAccount}
use asseto_solana_programs.Common.Guards.{AssetAccounts}
use asseto_solana_programs.Common.Token.{TokenProgram}
use asseto_solana_programs.Operations.{RemainingAccount, controller_transfer, burn, burn_entry}
use asseto_solana_programs.TransferHook.{Execute, execute}
use asseto_solana_programs.TransferHook.Laws.{by_permanent_delegate}
use asseto_solana_programs.Hold.{Hold, NewHoldArgs}
use asseto_solana_programs.Hold.Instructions.{
  init_if_needed, CreateHold, create_hold, controller_create_hold, release_hold, reclaim_hold,
  ExecuteHold, execute_hold,
}

-- Two lists that differ in one element.
pub data Replaced (h h' : Hold) : List Hold → List Hold → Type 0 where
  here : (hs : List Hold) → Replaced h h' (h ∷ hs) (h' ∷ hs)
  there : (g : Hold) {hs hs' : List Hold} → Replaced h h' hs hs' → Replaced h h' (g ∷ hs) (g ∷ hs')

-- What Token-2022 documents of the transfers and burns that the programs invoke: an account from
-- which `amount` is taken keeps at least the rest.
pub record TokenLaws (tp : TokenProgram) : Type 0 where
  pub transfer_checked_takes :
      (from mint to authority : Pubkey) (amount decimals : ℕ) (ledger : tp.Ledger)
      {ledger' : tp.Ledger} (s : TokenAccount)
      → tp.transfer_checked from mint to authority amount decimals ledger ≡ ok ledger'
      → tp.token_account from ledger ≡ ok s
      → (s' : TokenAccount) × (tp.token_account from ledger' ≡ ok s')
        × (s.amount ≤ s'.amount + amount)
  pub permissioned_burn_takes :
      (account mint burner authority : Pubkey) (amount : ℕ) (ledger : tp.Ledger)
      {ledger' : tp.Ledger} (s : TokenAccount)
      → tp.permissioned_burn account mint burner authority amount ledger ≡ ok ledger'
      → tp.token_account account ledger ≡ ok s
      → (s' : TokenAccount) × (tp.token_account account ledger' ≡ ok s')
        × (s.amount ≤ s'.amount + amount)

module _ (rt : Runtime) (tp : TokenProgram) (mint key : Pubkey) where
  open tp use {Ledger, token_account}

  -- `holds` are the accounts of the holds, the newest first.
  pub record World : Type 0 where
    pub ledger : Ledger
    pub position : AccountInfo HoldPosition
    pub holds : List Hold

  -- A transaction that commits: an instruction, or a transfer by the holder, which Token-2022 runs only
  -- if the transfer hook passes on the balance that is left.
  pub data Step : World → World → Type 0 where
    create :
        (now : ℤ) (a : AssetAccounts) (c : CreateHold) (args : NewHoldArgs) (ledger : Ledger)
        (holds : List Hold) {p : HoldPosition} {h : Hold}
        → c.mint ≡ mint
        → token_account key ledger ≡ ok c.token_account
        → create_hold now a c args ≡ ok (p, h)
        → Step
            (record { ledger = ledger; position = c.hold_position; holds = holds })
            (record { ledger = ledger; position = AccountInfo.loaded p; holds = h ∷ holds })
    controller_create :
        (now : ℤ) (a : AssetAccounts) (c : CreateHold) (args : NewHoldArgs) (ledger : Ledger)
        (holds : List Hold) {p : HoldPosition} {h : Hold}
        → c.mint ≡ mint
        → token_account key ledger ≡ ok c.token_account
        → controller_create_hold now a c args ≡ ok (p, h)
        → Step
            (record { ledger = ledger; position = c.hold_position; holds = holds })
            (record { ledger = ledger; position = AccountInfo.loaded p; holds = h ∷ holds })
    release :
        (version : AssetClassVersion) (escrow : Pubkey) (p : HoldPosition) (h : Hold) (amount : ℕ)
        (ledger : Ledger) {p' : HoldPosition} {h' : Hold} {holds holds' : List Hold}
        → release_hold version escrow p h amount ≡ ok (p', h')
        → Replaced h h' holds holds'
        → Step
            (record { ledger = ledger; position = AccountInfo.loaded p; holds = holds })
            (record { ledger = ledger; position = AccountInfo.loaded p'; holds = holds' })
    reclaim :
        (now : ℤ) (version : AssetClassVersion) (p : HoldPosition) (h : Hold) (ledger : Ledger)
        {p' : HoldPosition} {h' : Hold} {holds holds' : List Hold}
        → reclaim_hold now version p h ≡ ok (p', h')
        → Replaced h h' holds holds'
        → Step
            (record { ledger = ledger; position = AccountInfo.loaded p; holds = holds })
            (record { ledger = ledger; position = AccountInfo.loaded p'; holds = holds' })
    settle :
        (now : ℤ) (a : AssetAccounts) (c : ExecuteHold) (p : HoldPosition) (h : Hold) (amount : ℕ)
        (ledger : Ledger) {p' : HoldPosition} {h' : Hold} {ledger' : Ledger}
        {holds holds' : List Hold}
        → c.mint ≡ mint
        → c.source_token ≡ key
        → execute_hold rt tp now a c p h amount ledger ≡ ok (p', h', ledger')
        → Replaced h h' holds holds'
        → Step
            (record { ledger = ledger; position = AccountInfo.loaded p; holds = holds })
            (record { ledger = ledger'; position = AccountInfo.loaded p'; holds = holds' })
    transfer :
        (e : Execute) (ledger ledger' : Ledger) (holds : List Hold)
        → e.source_token ≡ token_account key ledger'
        → by_permanent_delegate rt e ≡ false
        → execute rt e ≡ ok tt
        → Step
            (record { ledger = ledger; position = e.source_hold_position_pda; holds = holds })
            (record { ledger = ledger'; position = e.source_hold_position_pda; holds = holds })
    forced_transfer :
        (a : AssetAccounts) (position : AccountInfo HoldPosition) (to : Pubkey) (amount : ℕ)
        (ledger : Ledger) (holds : List Hold) {ledger' : Ledger}
        → controller_transfer rt tp mint a position key to amount ledger ≡ ok ledger'
        → Step
            (record { ledger = ledger; position = position; holds = holds })
            (record { ledger = ledger'; position = position; holds = holds })
    burning :
        (a : AssetAccounts) (position : AccountInfo HoldPosition) (amount : ℕ) (ledger : Ledger)
        (holds : List Hold) {ledger' : Ledger}
        → burn rt tp mint a position key amount ledger ≡ ok ledger'
        → Step
            (record { ledger = ledger; position = position; holds = holds })
            (record { ledger = ledger'; position = position; holds = holds })
    batch_burning :
        (r : RemainingAccount) (amount : ℕ) (ledger : Ledger) (holds : List Hold) {ledger' : Ledger}
        → burn_entry rt tp mint amount key r ledger ≡ ok ledger'
        → Step
            (record { ledger = ledger; position = r.as_hold_position; holds = holds })
            (record { ledger = ledger'; position = r.as_hold_position; holds = holds })
    -- tokens that arrive, and whatever happens to other accounts
    receive :
        (position : AccountInfo HoldPosition) (ledger ledger' : Ledger) (holds : List Hold)
        (s s' : TokenAccount)
        → token_account key ledger ≡ ok s
        → token_account key ledger' ≡ ok s'
        → s.amount ≤ s'.amount
        → Step
            (record { ledger = ledger; position = position; holds = holds })
            (record { ledger = ledger'; position = position; holds = holds })

  -- Worlds reached from a token account that no hold has been recorded against.
  pub data Reachable : World → Type 0 where
    start :
        (ledger : Ledger) (s : TokenAccount)
        → token_account key ledger ≡ ok s
        → Reachable (record { ledger = ledger; position = AccountInfo.empty; holds = [] })
    step : {w w' : World} → Reachable w → Step w w' → Reachable w'
