-- ===== src/Freeze/Batch.antt =====
-- programs/freeze/src/instructions/batch_*.rs: the batch instructions. `remaining_accounts` are
-- addresses, an account and its freeze state in turn; the freeze states are looked up by address.
use asseto_solana_programs.Prelude.{
  ℕ, ⊤, ◌*◌, ◌%◌, Bool, true, false, not, ◌&&◌, Option, none, some, List, [], ◌∷◌, length, ltb,
  ◌==◌, if◌then◌else◌, update,
}
use asseto_solana_programs.Errors.{
  external, invalid_account_data, freeze, FreezeError, freeze_state_pda_mismatch, account_frozen,
  account_not_frozen, account_not_partially_frozen, invalid_freeze_amount, Result, ok, ◌>>=◌, ◌>>◌,
  require, ok_or,
}
use asseto_solana_programs.Common.ProgramIds.{Pubkey, freeze_program_id}
use asseto_solana_programs.Common.PdaSeeds.{Runtime, freeze_state_seeds}
use asseto_solana_programs.Common.State.{AccountInfo, loaded, unreadable}
use asseto_solana_programs.Common.Guards.{AssetAccounts, require_authorized}
use asseto_solana_programs.Common.Roles.{role_freeze_manager}
use asseto_solana_programs.Common.Functionalities.{
  freeze_freeze_account, freeze_unfreeze_account, freeze_partially_freeze_account,
  freeze_remove_partial_freeze,
}
use asseto_solana_programs.Freeze.{
  FreezeState, default_state, is_partially_frozen, is_empty, load_freeze_state,
}

abbrev pub States : Type 0
States = Pubkey → AccountInfo FreezeState

-- An existing state, or a new one with its canonical bump.
abbrev pub or_default : Option FreezeState → ℕ → FreezeState
or_default none bump = record default_state { bump = bump }
or_default (some existing) bump = existing

-- `close_pda` fills the data with zeros: until the transaction ends the account has data that no
-- longer loads.
unfoldable pub write_or_close : FreezeState → AccountInfo FreezeState
unfolding is_empty
write_or_close s = if is_empty s then unreadable (external invalid_account_data) else loaded s

abbrev pub is_nil : {A : Type 0} → List A → Bool
is_nil [] = true
is_nil (_ ∷ _) = false

abbrev pub require_pairs : List Pubkey → Result ⊤
require_pairs remaining = do
  require (not (is_nil remaining)) (freeze FreezeError.empty_batch)
  require (length remaining % 2 == 0) (freeze FreezeError.invalid_remaining_accounts)

abbrev pub all_positive : List ℕ → Bool
all_positive [] = true
all_positive (b ∷ bs) = ltb 0 b && all_positive bs

module _ (rt : Runtime) (mint : Pubkey) where
  -- The canonical address of an account's freeze state, and its bump.
  abbrev pub expected_pda : Pubkey → Pubkey × ℕ
  expected_pda account = rt.find_program_address (freeze_state_seeds mint account) freeze_program_id

  unfoldable pub freeze_entry : Pubkey → Pubkey → States → Result States
  unfolding load_freeze_state
  freeze_entry account pda states = do
    require (pda == (expected_pda account).0) (freeze freeze_state_pda_mismatch)
    found ← load_freeze_state (states pda)
    let freeze_state = or_default found (expected_pda account).1
    require (not freeze_state.fully_frozen) (freeze account_frozen)
    ok (update states pda (loaded (record freeze_state { fully_frozen = true })))

  unfoldable pub unfreeze_entry : Pubkey → Pubkey → States → Result States
  unfolding load_freeze_state write_or_close
  unfreeze_entry account pda states = do
    require (pda == (expected_pda account).0) (freeze freeze_state_pda_mismatch)
    found ← load_freeze_state (states pda)
    freeze_state ← ok_or found (freeze account_not_frozen)
    require freeze_state.fully_frozen (freeze account_not_frozen)
    ok (update states pda (write_or_close (record freeze_state { fully_frozen = false })))

  unfoldable pub freeze_partial_entry : ℕ → Pubkey → Pubkey → States → Result States
  unfolding load_freeze_state
  freeze_partial_entry balance account pda states = do
    require (pda == (expected_pda account).0) (freeze freeze_state_pda_mismatch)
    found ← load_freeze_state (states pda)
    let freeze_state = or_default found (expected_pda account).1
    ok (update states pda (loaded (record freeze_state { frozen_balance = balance })))

  unfoldable pub unfreeze_partial_entry : Pubkey → Pubkey → States → Result States
  unfolding load_freeze_state write_or_close is_partially_frozen
  unfreeze_partial_entry account pda states = do
    require (pda == (expected_pda account).0) (freeze freeze_state_pda_mismatch)
    found ← load_freeze_state (states pda)
    freeze_state ← ok_or found (freeze account_not_partially_frozen)
    require (is_partially_frozen freeze_state) (freeze account_not_partially_frozen)
    ok (update states pda (write_or_close (record freeze_state { frozen_balance = 0 })))

  -- `for i in 0..remaining_accounts.len() / 2`, with the accounts at `2 * i` and `2 * i + 1`.
  unfoldable pub for_pairs :
      (Pubkey → Pubkey → States → Result States) → List Pubkey → States → Result States
  for_pairs entry [] states = ok states
  for_pairs entry (_ ∷ []) states = ok states
  for_pairs entry (account ∷ pda ∷ remaining) states =
      entry account pda states >>= λ states'. for_pairs entry remaining states'

  unfoldable pub for_balances : List ℕ → List Pubkey → States → Result States
  unfolding freeze_partial_entry
  for_balances [] remaining states = ok states
  for_balances (_ ∷ _) [] states = ok states
  for_balances (_ ∷ _) (_ ∷ []) states = ok states
  for_balances (balance ∷ balances) (account ∷ pda ∷ remaining) states =
      freeze_partial_entry balance account pda states >>= λ states'.
      for_balances balances remaining states'

  unfoldable pub batch_freeze_account : AssetAccounts → List Pubkey → States → Result States
  unfolding for_pairs freeze_entry
  batch_freeze_account a remaining states = do
    require_pairs remaining
    require_authorized a role_freeze_manager freeze_freeze_account
    for_pairs freeze_entry remaining states

  unfoldable pub batch_unfreeze_account : AssetAccounts → List Pubkey → States → Result States
  unfolding for_pairs unfreeze_entry
  batch_unfreeze_account a remaining states = do
    require_pairs remaining
    require_authorized a role_freeze_manager freeze_unfreeze_account
    for_pairs unfreeze_entry remaining states

  unfoldable pub batch_freeze_account_partial :
      AssetAccounts → List ℕ → List Pubkey → States → Result States
  unfolding for_balances
  batch_freeze_account_partial a balances remaining states = do
    require (not (is_nil balances)) (freeze FreezeError.empty_batch)
    require (all_positive balances) (freeze invalid_freeze_amount)
    require (length remaining == length balances * 2)
        (freeze FreezeError.invalid_remaining_accounts)
    require_authorized a role_freeze_manager freeze_partially_freeze_account
    for_balances balances remaining states

  unfoldable pub batch_unfreeze_account_partial :
      AssetAccounts → List Pubkey → States → Result States
  unfolding for_pairs unfreeze_partial_entry
  batch_unfreeze_account_partial a remaining states = do
    require_pairs remaining
    require_authorized a role_freeze_manager freeze_remove_partial_freeze
    for_pairs unfreeze_partial_entry remaining states
