-- ===== src/Hold.antt =====
-- programs/hold/src/state.rs and creation.rs: holds, and the record of a new one.
pub mod Instructions
pub mod Creation
pub mod Outcome
pub mod Execution
pub mod Lien
mod Tests
use asseto_solana_programs.Prelude.{
  ℕ, ⊤, Bool, not, Option, none, some, ltb, leb, ◌==◌, checked_add, saturating_sub,
}
use asseto_solana_programs.Prelude.Int.{ℤ, ltb_ℤ}
use asseto_solana_programs.Errors.{
  hold, zero_amount, expiration_in_the_past, hold_id_mismatch, insufficient_available_balance,
  freeze, account_frozen, Result, ok, ◌>>=◌, ◌>>◌, require, ok_or,
}
use asseto_solana_programs.Common.ProgramIds.{Pubkey}
use asseto_solana_programs.Common.State.{AccountInfo, HoldPosition}
use asseto_solana_programs.Freeze.{FreezeState, freeze_status}

pub data HoldStatus : Type 0 where
  active expired closed : HoldStatus

pub record Hold : Type 0 where
  pub mint : Pubkey
  pub token_account : Pubkey
  pub hold_id : ℕ
  pub escrow : Pubkey
  pub destination : Option Pubkey
  pub initial_amount : ℕ
  pub current_amount : ℕ
  pub created_at : ℤ
  pub expiration : ℤ
  pub status : HoldStatus
  pub bump : ℕ

pub record NewHoldArgs : Type 0 where
  pub hold_id : ℕ
  pub amount : ℕ
  pub expiration : ℤ
  pub escrow : Pubkey
  pub destination : Option Pubkey

pub record HoldTarget : Type 0 where
  pub mint : Pubkey
  pub token_account : Pubkey
  pub balance : ℕ
  pub freeze_state_pda : AccountInfo FreezeState

-- What can still be put on hold: neither frozen nor held.
unfoldable pub available : ℕ → ℕ → ℕ → ℕ
available balance frozen held = saturating_sub (saturating_sub balance frozen) held

-- The new hold overwrites every field of its fresh account, so that is not an argument.
-- `now` is the clock's timestamp.
unfoldable pub record_new_hold :
    ℤ → HoldTarget → HoldPosition → ℕ → ℕ → NewHoldArgs → Result (HoldPosition × Hold)
unfolding available
record_new_hold now target position position_bump hold_bump args = do
  freeze_status ← freeze_status target.freeze_state_pda
  require (not freeze_status.fully_frozen) (freeze account_frozen)
  require (ltb 0 args.amount) (hold zero_amount)
  require (ltb_ℤ now args.expiration) (hold expiration_in_the_past)
  expected_hold_id ← ok_or (checked_add position.hold_count 1) (hold hold_id_mismatch)
  require (args.hold_id == expected_hold_id) (hold hold_id_mismatch)
  require
      (leb args.amount (available target.balance freeze_status.frozen_balance position.held_amount))
      (hold insufficient_available_balance)
  held ← ok_or (checked_add position.held_amount args.amount) (hold insufficient_available_balance)
  ok (
    record {
      mint = target.mint;
      token_account = target.token_account;
      held_amount = held;
      hold_count = expected_hold_id;
      bump = position_bump;
    },
    record {
      mint = target.mint;
      token_account = target.token_account;
      hold_id = args.hold_id;
      escrow = args.escrow;
      destination = args.destination;
      initial_amount = args.amount;
      current_amount = args.amount;
      created_at = now;
      expiration = args.expiration;
      status = active;
      bump = hold_bump;
    },
  )
