-- ===== src/Hold/Tests.antt =====
-- Holds at concrete accounts.
use asseto_solana_programs.Prelude.{ℕ, ◌+◌, ◌≤◌, ◌≡◌, refl, some, [], ◌∷◌, arith, update}
use asseto_solana_programs.Prelude.Int.{pos, ◌<ℤ◌}
use asseto_solana_programs.Errors.{ok}
use asseto_solana_programs.Common.ProgramIds.{Pubkey}
use asseto_solana_programs.Common.State.{empty, loaded, HoldPosition, TokenAccount}
use asseto_solana_programs.Common.Examples.{
  runtime, version, asset_accounts, token_account, Book, move, burn, token_program, book,
}
use asseto_solana_programs.Common.Bitmask.{locate, is_set}
use asseto_solana_programs.Common.Guards.{
  require_role, require_not_paused, require_active, require_functionality, is_functionality_enabled,
}
use asseto_solana_programs.Freeze.{
  freeze_status, load_freeze_state, require_locked_balance_covered, token_balance,
}
use asseto_solana_programs.TransferControl.{verify_transfer_control_mode}
use asseto_solana_programs.Operations.{hold_transfer, operations_authority}
use asseto_solana_programs.Common.PdaSeeds.{
  hold_authority_seeds, permanent_delegate_seeds, is_caller_pda, as_ref,
}
use asseto_solana_programs.Hold.{
  Hold, active, closed, expired, NewHoldArgs, available, record_new_hold,
}
use asseto_solana_programs.Hold.Instructions.{
  init_if_needed, lower_position, lower_hold, locked_with, CreateHold, ExecuteHold, create_hold,
  controller_create_hold, release_hold, reclaim_hold, execute_hold,
}
use asseto_solana_programs.Hold.Creation.{Created, create_hold-Created}
use asseto_solana_programs.Hold.Outcome.{Lowers}
use asseto_solana_programs.Hold.Execution.{
  Executed, execute_hold-Executed, execute_hold-before-reclaim_hold,
}
use asseto_solana_programs.Hold.Lien.{TokenLaws, World, create, Reachable, start, step}
use asseto_solana_programs.Hold.Lien.Invariant.{IsSound, Reachable-IsSound}
use asseto_solana_programs.Hold.Lien.Resolution.{release_hold_succeeds, reclaim_hold_succeeds}

move_takes :
    (from to : Pubkey) (amount : ℕ) (b : Book) {b' : Book}
    → move from to amount b ≡ ok b'
    → b.balance from ≤ b'.balance from + amount
move_takes from to amount b h = ground arith

burn_takes :
    (account : Pubkey) (amount : ℕ) (b : Book) {b' : Book}
    → burn account amount b ≡ ok b'
    → b.balance account ≤ b'.balance account + amount
burn_takes account amount b h = ground arith

amount_of : {s t : TokenAccount} → ok s ≡ ok t → s.amount ≡ t.amount
amount_of h = cc

token_laws : TokenLaws token_program
token_laws = record {
  transfer_checked_takes =
      λ from mint to authority amount decimals b {ledger' = b'} s moved unpacks. (
        token_account (b'.balance from),
        refl,
        omega (arith, move_takes from to amount b {b' = b'} moved, amount_of unpacks),
      );
  permissioned_burn_takes = λ account mint burner authority amount b {ledger' = b'} s burnt unpacks.
      (
        token_account (b'.balance account),
        refl,
        omega (arith, burn_takes account amount b {b' = b'} burnt, amount_of unpacks),
      );
}

abbrev creation : CreateHold
creation = record {
  authority = 9;
  mint = 7;
  token_account_key = 20;
  token_account = token_account 50;
  token_account_freeze_state_pda = empty;
  hold_position = empty;
  hold_record = empty;
  bump_of_position = 254;
  bump_of_hold = 253;
}

abbrev args : NewHoldArgs
args = record {
  hold_id = 1;
  amount = 30;
  expiration = pos 1000;
  escrow = 77;
  destination = some 21;
}

abbrev position : ℕ → HoldPosition
position held = record {
  mint = 7;
  token_account = 20;
  held_amount = held;
  hold_count = 1;
  bump = 254;
}

abbrev one_hold : Hold
one_hold = record {
  mint = 7;
  token_account = 20;
  hold_id = 1;
  escrow = 77;
  destination = some 21;
  initial_amount = 30;
  current_amount = 30;
  created_at = pos 500;
  expiration = pos 1000;
  status = active;
  bump = 253;
}

created_hold : create_hold (pos 500) asset_accounts creation args ≡ ok (position 30, one_hold)
unfolding create_hold record_new_hold available require_not_paused require_active
    require_functionality is_functionality_enabled is_set locate freeze_status load_freeze_state
    init_if_needed
created_hold = refl

abbrev world : World runtime token_program 7 20
world = record { ledger = book; position = loaded (position 30); holds = one_hold ∷ [] }

reached : Reachable runtime token_program 7 20 world
reached =
    step (start book (token_account 50) refl)
      (create (pos 500) asset_accounts creation args book [] refl refl created_hold)

Reachable-IsSound_example : IsSound runtime token_program token_laws 7 20 world
Reachable-IsSound_example = Reachable-IsSound runtime token_program token_laws 7 20 reached

create_hold-Created_example : Created creation args (position 30) one_hold
create_hold-Created_example =
    create_hold-Created (pos 500) asset_accounts creation args created_hold

release_hold_succeeds_example :
    release_hold version 77 (position 30) one_hold 30
    ≡ ok (position 0, record one_hold { current_amount = 0; status = closed })
unfolding reached
release_hold_succeeds_example =
    release_hold_succeeds runtime token_program token_laws 7 20 version book (position 30) [] []
      one_hold 30 reached (tt, refl) refl (omega arith) (omega arith)

reclaim_hold_succeeds_example :
    reclaim_hold (pos 1000) version (position 30) one_hold
    ≡ ok (position 0, record one_hold { current_amount = 0; status = expired })
unfolding reached
reclaim_hold_succeeds_example =
    reclaim_hold_succeeds runtime token_program token_laws 7 20 (pos 1000) version book
      (position 30) [] [] one_hold reached (tt, refl) refl (omega arith)

controller_created :
    controller_create_hold (pos 500) asset_accounts creation args ≡ ok (position 30, one_hold)
unfolding controller_create_hold record_new_hold available require_role require_not_paused
    require_active require_functionality is_functionality_enabled is_set locate freeze_status
    load_freeze_state init_if_needed
controller_created = refl

partly_released :
    release_hold version 77 (position 30) one_hold 10
    ≡ ok (position 20, record one_hold { current_amount = 20 })
unfolding release_hold lower_position lower_hold require_functionality is_functionality_enabled
    is_set locate
partly_released = refl

abbrev execution : ExecuteHold
execution = record {
  escrow = 77;
  mint = 7;
  source_token = 20;
  destination_token = 21;
  transfer_control_mode_pda = empty;
  source_control_list_pda = empty;
  destination_control_list_pda = empty;
  source_freeze_state_pda = empty;
}

abbrev book_after : Book
book_after = record { supply = 50; balance = update (update (update (λ k. 0) 20 50) 20 40) 21 10 }

executed :
    execute_hold runtime token_program
      (pos 600)
      asset_accounts
      execution
      (position 30)
      one_hold
      10
      book
    ≡ ok (position 20, record one_hold { current_amount = 20 }, book_after)
unfolding execute_hold lower_position lower_hold locked_with require_not_paused require_active
    require_functionality is_functionality_enabled is_set locate verify_transfer_control_mode
    freeze_status load_freeze_state require_locked_balance_covered token_balance hold_transfer
    operations_authority is_caller_pda hold_authority_seeds permanent_delegate_seeds as_ref
executed = refl

execute_hold-Executed_example :
    Lowers (position 30) one_hold 10 (position 20) (record one_hold { current_amount = 20 })
    × Executed runtime token_program
        (pos 600)
        asset_accounts
        execution
        (position 30)
        one_hold
        10
        book
        book_after
execute_hold-Executed_example =
    execute_hold-Executed runtime token_program (pos 600) asset_accounts execution (position 30)
      one_hold 10 book executed

execute_hold-before-reclaim_hold_example : pos 600 <ℤ pos 1000
execute_hold-before-reclaim_hold_example =
    execute_hold-before-reclaim_hold runtime token_program (pos 600) (pos 1000) asset_accounts
      execution version (position 30) one_hold 10 book executed reclaim_hold_succeeds_example
