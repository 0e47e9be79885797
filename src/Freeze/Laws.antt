-- ===== src/Freeze/Laws.antt =====
-- The instructions of the freeze program against an abstract freeze status.
use asseto_solana_programs.Prelude.{
  ℕ, ⊤, ◌≡◌, true, false, Option, none, some, arith, ltb, if◌then◌else◌,
}
use asseto_solana_programs.Errors.{Result, ok, err}
use asseto_solana_programs.Common.State.{AccountInfo, empty, loaded, unreadable}
use asseto_solana_programs.Common.Guards.{AssetAccounts, require_authorized}
use asseto_solana_programs.Common.Roles.{role_freeze_manager}
use asseto_solana_programs.Common.Functionalities.{
  freeze_freeze_account, freeze_unfreeze_account, freeze_partially_freeze_account,
  freeze_remove_partial_freeze,
}
use asseto_solana_programs.Freeze.{FreezeState, FreezeStatus, is_empty, freeze_status}
use asseto_solana_programs.Freeze.Instructions.{
  freeze_account, unfreeze_account, freeze_account_partial, unfreeze_account_partial,
}

pub data FreezeOp : Type 0 where
  full unfull unpartial : FreezeOp
  partial : ℕ → FreezeOp

-- The entry points of lib.rs.
unfoldable pub run :
    FreezeOp → AssetAccounts → ℕ → AccountInfo FreezeState → Result (AccountInfo FreezeState)
unfolding freeze_account unfreeze_account freeze_account_partial unfreeze_account_partial
run full a bump pda = freeze_account a bump pda
run unfull a bump pda = unfreeze_account a pda
run (partial balance) a bump pda = freeze_account_partial a bump balance pda
run unpartial a bump pda = unfreeze_account_partial a pda

abbrev pub functionality_of : FreezeOp → ℕ
functionality_of full = freeze_freeze_account
functionality_of unfull = freeze_unfreeze_account
functionality_of (partial _) = freeze_partially_freeze_account
functionality_of unpartial = freeze_remove_partial_freeze

-- What an operation means: a flag that is set and reset, and a locked balance that is independent
-- of it.
abbrev pub spec : FreezeOp → FreezeStatus → Option FreezeStatus
spec full st = if st.fully_frozen then none else some (record st { fully_frozen = true })
spec unfull st = if st.fully_frozen then some (record st { fully_frozen = false }) else none
spec (partial balance) st =
    if ltb 0 balance then some (record st { frozen_balance = balance }) else none
spec unpartial st =
    if ltb 0 st.frozen_balance then some (record st { frozen_balance = 0 }) else none

-- The instruction succeeds exactly if the specification does, with the status that it gives.
abbrev pub Refines : Result (AccountInfo FreezeState) → Option FreezeStatus → Type 0
Refines (ok pda) (some st) = freeze_status pda ≡ ok st
Refines (ok _) none = ⊥
Refines (err _) (some _) = ⊥
Refines (err _) none = ⊤

-- With the authorisation given, and on an account whose freeze status reads, each instruction does what
-- its specification says of the freeze status, and fails where that fails. In particular a partial freeze
-- is refused for an amount of 0 only: no balance is read, so the amount may be more than the account has.
pub run-Refines :
    (op : FreezeOp) (a : AssetAccounts) (bump : ℕ) (pda : AccountInfo FreezeState)
    {st : FreezeStatus}
    → freeze_status pda ≡ ok st
    → require_authorized a role_freeze_manager (functionality_of op) ≡ ok tt
    → Refines (run op a bump pda) (spec op st)
unfolding run freeze_status
run-Refines full a bump empty h auth = ground arith
run-Refines full a bump (loaded s) h auth = ground arith
run-Refines full a bump (unreadable e) h auth = cc
run-Refines unfull a bump empty h auth = ground arith
run-Refines unfull a bump (loaded s) h auth = ground arith
run-Refines unfull a bump (unreadable e) h auth = cc
run-Refines unpartial a bump empty h auth = ground arith
run-Refines unpartial a bump (loaded s) h auth = ground arith
run-Refines unpartial a bump (unreadable e) h auth = cc
run-Refines (partial b) a bump empty h auth = ground arith
run-Refines (partial b) a bump (loaded s) h auth = ground arith
run-Refines (partial b) a bump (unreadable e) h auth = cc

-- No instruction succeeds unless its checks do.
pub run-authorized :
    (op : FreezeOp) (a : AssetAccounts) (bump : ℕ) (pda : AccountInfo FreezeState)
    {pda' : AccountInfo FreezeState}
    → run op a bump pda ≡ ok pda'
    → require_authorized a role_freeze_manager (functionality_of op) ≡ ok tt
unfolding run
run-authorized full a bump empty h = ground arith
run-authorized _ a bump pda h = ground arith

-- A freeze state exists only while something is frozen.
abbrev pub IsMinimal : AccountInfo FreezeState → Type 0
IsMinimal empty = ⊤
IsMinimal (loaded s) = is_empty s ≡ false
IsMinimal (unreadable _) = ⊥

-- Every instruction leaves a state that is there only if the account is frozen, fully or in part.
pub run-IsMinimal :
    (op : FreezeOp) (a : AssetAccounts) (bump : ℕ) (pda : AccountInfo FreezeState)
    {pda' : AccountInfo FreezeState}
    → run op a bump pda ≡ ok pda'
    → IsMinimal pda'
unfolding run
run-IsMinimal full a bump empty h = ground arith
run-IsMinimal _ a bump pda h = ground arith
