-- ===== src/TransferHook/Tests.antt =====
-- A transfer that the hook passes.
use asseto_solana_programs.Prelude.{◌≡◌, ◌↔◌, ◌⊎◌, true, false}
use asseto_solana_programs.Errors.{ok}
use asseto_solana_programs.Common.State.{empty, loaded}
use asseto_solana_programs.Common.Examples.{runtime, version, token_account}
use asseto_solana_programs.TransferHook.{Execute, execute}
use asseto_solana_programs.TransferHook.Laws.{
  IsTransferring, by_permanent_delegate, Compliant, execute-Compliant,
}

-- 70 tokens are left, of which 40 are frozen and 30 held.
abbrev transfer : Execute
transfer = record {
  source_token = ok (token_account 70);
  mint = 7;
  owner = 9;
  asset_class_version_pda = version;
  deactivate_pda = empty;
  transfer_control_mode_pda = empty;
  source_control_list_pda = empty;
  destination_control_list_pda = empty;
  source_freeze_state_pda = loaded (record { fully_frozen = false; frozen_balance = 40; bump = 1 });
  source_hold_position_pda =
      loaded (record { mint = 7; token_account = 20; held_amount = 30; hold_count = 1; bump = 2 });
}

execute-Compliant_example : (execute runtime transfer ≡ ok tt) ↔ (
    IsTransferring transfer.source_token
    × ((by_permanent_delegate runtime transfer ≡ true) ⊎ Compliant transfer))
execute-Compliant_example = execute-Compliant runtime transfer
