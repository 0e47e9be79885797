-- ===== src/Hold/Instructions.antt =====
-- programs/hold/src/instructions: the five instructions. Each returns the accounts that it writes.
use asseto_solana_programs.Prelude.{
  ℕ, ⊤, Bool, true, false, not, Option, none, some, [], ◌∷◌, ltb, leb, ◌==◌, if◌then◌else◌,
  checked_add, checked_sub,
}
use asseto_solana_programs.Prelude.Int.{ℤ, ltb_ℤ, leb_ℤ}
use asseto_solana_programs.Errors.{
  external, constraint_failed, hold, zero_amount, not_the_escrow, hold_not_active, hold_expired,
  hold_not_expired, amount_exceeds_hold, destination_mismatch, held_amount_underflow, freeze,
  account_frozen, Result, ok, err, ◌>>=◌, ◌>>◌, require, ok_or,
}
use asseto_solana_programs.Common.ProgramIds.{Pubkey, hold_program_id}
use asseto_solana_programs.Common.PdaSeeds.{Runtime, hold_authority_seeds}
use asseto_solana_programs.Common.State.{
  AccountInfo, empty, loaded, unreadable, data_is_empty, TokenAccount, AssetClassVersion,
  HoldPosition,
}
use asseto_solana_programs.Common.Guards.{
  AssetAccounts, require_role, require_not_paused, require_active, require_functionality,
}
use asseto_solana_programs.Common.Token.{TokenProgram}
use asseto_solana_programs.Common.Roles.{role_controller}
use asseto_solana_programs.Common.Functionalities.{hold_create_hold}
use asseto_solana_programs.Freeze.{FreezeState, freeze_status, require_locked_balance_covered}
use asseto_solana_programs.TransferControl.{
  TransferControlMode, ControlListStatus, verify_transfer_control_mode,
}
use asseto_solana_programs.Operations.{hold_transfer}
use asseto_solana_programs.Hold.{
  HoldStatus, active, expired, closed, Hold, NewHoldArgs, HoldTarget, record_new_hold,
}

-- A new account holds zeros.
abbrev pub default_position : HoldPosition
default_position = record { mint = 0; token_account = 0; held_amount = 0; hold_count = 0; bump = 0 }

unfoldable pub init_if_needed : AccountInfo HoldPosition → Result HoldPosition
init_if_needed empty = ok default_position
init_if_needed (loaded position) = ok position
init_if_needed (unreadable e) = err e

-- `bump_of_position` and `bump_of_hold` are the canonical bumps that Anchor hands the handler.
pub record CreateHold : Type 0 where
  pub authority : Pubkey
  pub mint : Pubkey
  pub token_account_key : Pubkey
  pub token_account : TokenAccount
  pub token_account_freeze_state_pda : AccountInfo FreezeState
  pub hold_position : AccountInfo HoldPosition
  pub hold_record : AccountInfo Hold
  pub bump_of_position : ℕ
  pub bump_of_hold : ℕ

abbrev pub target_of : CreateHold → HoldTarget
target_of c = record {
  mint = c.mint;
  token_account = c.token_account_key;
  balance = c.token_account.amount;
  freeze_state_pda = c.token_account_freeze_state_pda;
}

-- The constraints on the token account and the two `init`s, then the handler.
unfoldable pub create_hold :
    ℤ → AssetAccounts → CreateHold → NewHoldArgs → Result (HoldPosition × Hold)
unfolding init_if_needed
create_hold now a c args = do
  require (c.token_account.mint == c.mint) (external constraint_failed)
  require (c.token_account.owner == c.authority) (external constraint_failed)
  position ← init_if_needed c.hold_position
  require (data_is_empty c.hold_record) (external constraint_failed)
  require_not_paused a.mint
  require_active a.deactivate_pda
  require_functionality a.asset_class_version_pda hold_create_hold
  record_new_hold now (target_of c) position c.bump_of_position c.bump_of_hold args

unfoldable pub controller_create_hold :
    ℤ → AssetAccounts → CreateHold → NewHoldArgs → Result (HoldPosition × Hold)
unfolding init_if_needed
controller_create_hold now a c args = do
  require (c.token_account.mint == c.mint) (external constraint_failed)
  position ← init_if_needed c.hold_position
  require (data_is_empty c.hold_record) (external constraint_failed)
  require_role a.authority_roles_pda role_controller
  require_not_paused a.mint
  require_active a.deactivate_pda
  require_functionality a.asset_class_version_pda hold_create_hold
  record_new_hold now (target_of c) position c.bump_of_position c.bump_of_hold args

abbrev pub is_active : HoldStatus → Bool
is_active active = true
is_active _ = false

-- The position and the hold, each less `amount`; a hold that reaches zero is closed.
unfoldable pub lower_position : HoldPosition → ℕ → Result HoldPosition
lower_position position amount = do
  held_after ← ok_or (checked_sub position.held_amount amount) (hold held_amount_underflow)
  ok (record position { held_amount = held_after })

unfoldable pub lower_hold : Hold → ℕ → Result Hold
lower_hold h amount = do
  current ← ok_or (checked_sub h.current_amount amount) (hold amount_exceeds_hold)
  ok (record h { current_amount = current; status = if current == 0 then closed else h.status })

unfoldable pub release_hold :
    AssetClassVersion → Pubkey → HoldPosition → Hold → ℕ → Result (HoldPosition × Hold)
unfolding lower_position lower_hold
release_hold version escrow position h amount = do
  require_functionality version hold_create_hold
  require (escrow == h.escrow) (hold not_the_escrow)
  require (is_active h.status) (hold hold_not_active)
  require (ltb 0 amount) (hold zero_amount)
  require (leb amount h.current_amount) (hold amount_exceeds_hold)
  position' ← lower_position position amount
  h' ← lower_hold h amount
  ok (position', h')

unfoldable pub reclaim_hold :
    ℤ → AssetClassVersion → HoldPosition → Hold → Result (HoldPosition × Hold)
unfolding lower_position
reclaim_hold now version position h = do
  require_functionality version hold_create_hold
  require (is_active h.status) (hold hold_not_active)
  require (leb_ℤ h.expiration now) (hold hold_not_expired)
  position' ← lower_position position h.current_amount
  ok (position', record h { current_amount = 0; status = expired })

pub record ExecuteHold : Type 0 where
  pub escrow : Pubkey
  pub mint : Pubkey
  pub source_token : Pubkey
  pub destination_token : Pubkey
  pub transfer_control_mode_pda : AccountInfo TransferControlMode
  pub source_control_list_pda : AccountInfo ControlListStatus
  pub destination_control_list_pda : AccountInfo ControlListStatus
  pub source_freeze_state_pda : AccountInfo FreezeState

abbrev pub verify_destination : Option Pubkey → Pubkey → Result ⊤
verify_destination none destination = ok tt
verify_destination (some pinned) destination =
    require (destination == pinned) (hold destination_mismatch)

-- `frozen + held_after + amount`, each sum checked.
unfoldable pub locked_with : ℕ → ℕ → ℕ → Result ℕ
locked_with frozen held_after amount = do
  locked ← ok_or (checked_add frozen held_after) (hold held_amount_underflow)
  ok_or (checked_add locked amount) (hold held_amount_underflow)

module _ (rt : Runtime) (tp : TokenProgram) where
  open tp use {Ledger, token_account}

  unfoldable pub execute_hold :
      ℤ
      → AssetAccounts
      → ExecuteHold
      → HoldPosition
      → Hold
      → ℕ
      → Ledger
      → Result (HoldPosition × Hold × Ledger)
  unfolding lower_hold lower_position locked_with
  execute_hold now a c position h amount ledger = do
    require_not_paused a.mint
    require_active a.deactivate_pda
    require_functionality a.asset_class_version_pda hold_create_hold
    require (c.escrow == h.escrow) (hold not_the_escrow)
    require (is_active h.status) (hold hold_not_active)
    require (ltb_ℤ now h.expiration) (hold hold_expired)
    require (ltb 0 amount) (hold zero_amount)
    require (leb amount h.current_amount) (hold amount_exceeds_hold)
    verify_destination h.destination c.destination_token
    verify_transfer_control_mode c.transfer_control_mode_pda
        (c.source_control_list_pda ∷ c.destination_control_list_pda ∷ [])
    status ← freeze_status c.source_freeze_state_pda
    require (not status.fully_frozen) (freeze account_frozen)
    position' ← lower_position position amount
    total_locked ← locked_with status.frozen_balance position'.held_amount amount
    require_locked_balance_covered (token_account c.source_token ledger) total_locked
    h' ← lower_hold h amount
    ledger' ←
        hold_transfer rt tp c.mint
          (rt.find_program_address (hold_authority_seeds c.mint) hold_program_id).0 c.source_token
          c.destination_token amount ledger
    ok (position', h', ledger')
