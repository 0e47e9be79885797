-- ===== src/Freeze.antt =====
-- programs/freeze/src/state.rs and lib.rs: the freeze state of a token account, and the queries that
-- other programs make.
pub mod Instructions
pub mod Batch
pub mod Laws
pub mod BatchLaws
pub mod BatchEntries
pub mod BatchSpec
pub mod BatchRefinement
mod Tests
use asseto_solana_programs.Prelude.{
  ℕ, ⊤, Bool, true, false, not, ◌&&◌, Option, none, some, ltb, leb, saturating_sub,
}
use asseto_solana_programs.Errors.{
  freeze, account_frozen, insufficient_unfrozen_balance, Result, ok, ◌>>=◌, ◌>>◌, require,
}
use asseto_solana_programs.Common.State.{AccountInfo, data_is_empty, try_from, TokenAccount}
use asseto_solana_programs.Common.Guards.{map_err}

pub record FreezeState : Type 0 where
  pub fully_frozen : Bool
  pub frozen_balance : ℕ
  pub bump : ℕ

-- `FreezeState::default()`, also what a new account holds.
abbrev pub default_state : FreezeState
default_state = record { fully_frozen = false; frozen_balance = 0; bump = 0 }

unfoldable pub is_partially_frozen : FreezeState → Bool
is_partially_frozen s = ltb 0 s.frozen_balance

unfoldable pub is_empty : FreezeState → Bool
unfolding is_partially_frozen
is_empty s = not s.fully_frozen && not (is_partially_frozen s)

unfoldable pub load_freeze_state : AccountInfo FreezeState → Result (Option FreezeState)
load_freeze_state pda = elim (data_is_empty pda) [
  | true ↦ ok none
  | false ↦ try_from pda >>= λ s. ok (some s)
]

pub record FreezeStatus : Type 0 where
  pub fully_frozen : Bool
  pub frozen_balance : ℕ

abbrev pub to_status : Option FreezeState → FreezeStatus
to_status none = record { fully_frozen = false; frozen_balance = 0 }
to_status (some s) = record { fully_frozen = s.fully_frozen; frozen_balance = s.frozen_balance }

unfoldable pub freeze_status : AccountInfo FreezeState → Result FreezeStatus
unfolding load_freeze_state
freeze_status pda = load_freeze_state pda >>= λ s. ok (to_status s)

unfoldable pub require_unfrozen_account : AccountInfo FreezeState → Result ⊤
unfolding freeze_status
require_unfrozen_account pda = do
  status ← freeze_status pda
  require (not status.fully_frozen) (freeze account_frozen)

unfoldable pub frozen_balance : AccountInfo FreezeState → Result ℕ
unfolding freeze_status
frozen_balance pda = freeze_status pda >>= λ status. ok status.frozen_balance

-- The argument is the outcome of unpacking the token account.
unfoldable pub token_balance : Result TokenAccount → Result ℕ
token_balance token_account = do
  token_state ← map_err token_account (freeze insufficient_unfrozen_balance)
  ok token_state.amount

unfoldable pub require_unfrozen_balance :
    ℕ → Result TokenAccount → AccountInfo FreezeState → Result ⊤
unfolding token_balance frozen_balance
require_unfrozen_balance amount token_account pda = do
  balance ← token_balance token_account
  frozen ← frozen_balance pda
  require (leb amount (saturating_sub balance frozen)) (freeze insufficient_unfrozen_balance)

unfoldable pub require_locked_balance_covered : Result TokenAccount → ℕ → Result ⊤
unfolding token_balance
require_locked_balance_covered token_account total_locked = do
  balance ← token_balance token_account
  require (leb total_locked balance) (freeze insufficient_unfrozen_balance)

unfoldable pub require_frozen_balance_covered :
    Result TokenAccount → AccountInfo FreezeState → Result ⊤
unfolding require_locked_balance_covered frozen_balance
require_frozen_balance_covered token_account pda =
    frozen_balance pda >>= λ frozen. require_locked_balance_covered token_account frozen
