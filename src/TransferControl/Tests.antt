-- ===== src/TransferControl/Tests.antt =====
-- A blacklist with one listed account.
use asseto_solana_programs.Prelude.{◌≡◌, ◌↔◌, List, [], ◌∷◌}
use asseto_solana_programs.Errors.{ok}
use asseto_solana_programs.Common.State.{AccountInfo, empty, loaded}
use asseto_solana_programs.TransferControl.{
  blacklist, TransferControlMode, ControlListStatus, verify_transfer_control_mode,
}
use asseto_solana_programs.TransferControl.Laws.{Complies, verify_transfer_control_mode-Complies}

abbrev mode_pda : AccountInfo TransferControlMode
mode_pda = loaded (record { mode = blacklist; bump = 1 })

abbrev pdas : List (AccountInfo ControlListStatus)
pdas = empty ∷ loaded (record { bump = 2 }) ∷ []

verify_transfer_control_mode-Complies_example :
    (verify_transfer_control_mode mode_pda pdas ≡ ok tt) ↔ Complies mode_pda pdas
verify_transfer_control_mode-Complies_example = verify_transfer_control_mode-Complies mode_pda pdas
