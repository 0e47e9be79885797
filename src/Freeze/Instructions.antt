-- ===== src/Freeze/Instructions.antt =====
-- programs/freeze/src/instructions: the four instructions on one account. Each takes the freeze-state
-- account as it is and returns it as the instruction leaves it.
use asseto_solana_programs.Prelude.{ℕ, true, false, not, ltb, if◌then◌else◌}
use asseto_solana_programs.Errors.{
  freeze, account_frozen, account_not_frozen, account_not_partially_frozen, invalid_freeze_amount,
  Result, ok, ◌>>=◌, ◌>>◌, require,
}
use asseto_solana_programs.Common.State.{AccountInfo, empty, loaded, unreadable, try_from}
use asseto_solana_programs.Common.Guards.{AssetAccounts, require_authorized}
use asseto_solana_programs.Common.Roles.{role_freeze_manager}
use asseto_solana_programs.Common.Functionalities.{
  freeze_freeze_account, freeze_unfreeze_account, freeze_partially_freeze_account,
  freeze_remove_partial_freeze,
}
use asseto_solana_programs.Freeze.{FreezeState, default_state, is_partially_frozen, is_empty}

-- `init_if_needed`: a new account holds zeros.
unfoldable pub init_if_needed : AccountInfo FreezeState → Result FreezeState
init_if_needed empty = ok default_state
init_if_needed (loaded s) = ok s
init_if_needed (unreadable e) = try_from (unreadable e)

unfoldable pub freeze_account :
    AssetAccounts → ℕ → AccountInfo FreezeState → Result (AccountInfo FreezeState)
unfolding init_if_needed
freeze_account a bump pda = do
  freeze_state ← init_if_needed pda
  require_authorized a role_freeze_manager freeze_freeze_account
  require (not freeze_state.fully_frozen) (freeze account_frozen)
  ok (loaded (record freeze_state { fully_frozen = true; bump = bump }))

-- `close` leaves an account with no data.
unfoldable pub close_if_empty : FreezeState → AccountInfo FreezeState
unfolding is_empty
close_if_empty s = if is_empty s then empty else loaded s

unfoldable pub unfreeze_account :
    AssetAccounts → AccountInfo FreezeState → Result (AccountInfo FreezeState)
unfolding close_if_empty
unfreeze_account a pda = do
  freeze_state ← try_from pda
  require_authorized a role_freeze_manager freeze_unfreeze_account
  require freeze_state.fully_frozen (freeze account_not_frozen)
  ok (close_if_empty (record freeze_state { fully_frozen = false }))

unfoldable pub freeze_account_partial :
    AssetAccounts → ℕ → ℕ → AccountInfo FreezeState → Result (AccountInfo FreezeState)
unfolding init_if_needed
freeze_account_partial a bump balance pda = do
  freeze_state ← init_if_needed pda
  require_authorized a role_freeze_manager freeze_partially_freeze_account
  require (ltb 0 balance) (freeze invalid_freeze_amount)
  ok (loaded (record freeze_state { frozen_balance = balance; bump = bump }))

unfoldable pub unfreeze_account_partial :
    AssetAccounts → AccountInfo FreezeState → Result (AccountInfo FreezeState)
unfolding close_if_empty is_partially_frozen
unfreeze_account_partial a pda = do
  freeze_state ← try_from pda
  require_authorized a role_freeze_manager freeze_remove_partial_freeze
  require (is_partially_frozen freeze_state) (freeze account_not_partially_frozen)
  ok (close_if_empty (record freeze_state { frozen_balance = 0 }))
