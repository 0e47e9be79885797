-- ===== src/Freeze/Tests.antt =====
-- Freezing concrete accounts.
use asseto_solana_programs.Prelude.{ℕ, ◌≡◌, refl, true, false, List, [], ◌∷◌, update}
use asseto_solana_programs.Errors.{ok}
use asseto_solana_programs.Common.Bitmask.{locate, is_set}
use asseto_solana_programs.Common.State.{AccountInfo, empty, loaded}
use asseto_solana_programs.Common.Guards.{
  require_role, require_not_paused, require_active, require_functionality, is_functionality_enabled,
  require_authorized,
}
use asseto_solana_programs.Common.Roles.{role_freeze_manager}
use asseto_solana_programs.Common.Functionalities.{freeze_freeze_account}
use asseto_solana_programs.Common.Examples.{runtime, asset_accounts}
use asseto_solana_programs.Freeze.{FreezeState, load_freeze_state, freeze_status}
use asseto_solana_programs.Freeze.Instructions.{init_if_needed, freeze_account}
use asseto_solana_programs.Freeze.Batch.{States, expected_pda}
use asseto_solana_programs.Freeze.Laws.{
  full, run, Refines, spec, run-Refines, IsMinimal, run-IsMinimal,
}
use asseto_solana_programs.Freeze.BatchEntries.{Statuses, thawed, HaveStatuses}
use asseto_solana_programs.Freeze.BatchSpec.{batch_full, RefinesAll, spec_batch}
use asseto_solana_programs.Freeze.BatchRefinement.{
  update-HaveStatuses, run_batch, run_batch-Refines,
}

abbrev partly : AccountInfo FreezeState
partly = loaded (record { fully_frozen = false; frozen_balance = 5; bump = 250 })

abbrev wholly : AccountInfo FreezeState
wholly = loaded (record { fully_frozen = true; frozen_balance = 5; bump = 250 })

partly_status : freeze_status partly ≡ ok (record { fully_frozen = false; frozen_balance = 5 })
unfolding freeze_status load_freeze_state
partly_status = refl

authorized : require_authorized asset_accounts role_freeze_manager freeze_freeze_account ≡ ok tt
unfolding require_authorized require_role require_not_paused require_active require_functionality
    is_functionality_enabled is_set locate
authorized = refl

frozen : run full asset_accounts 250 partly ≡ ok wholly
unfolding run freeze_account init_if_needed require_authorized require_role require_not_paused
    require_active require_functionality is_functionality_enabled is_set locate
frozen = refl

run-Refines_example :
    Refines
      (run full asset_accounts 250 partly)
      (spec full (record { fully_frozen = false; frozen_balance = 5 }))
run-Refines_example = run-Refines full asset_accounts 250 partly partly_status authorized

run-IsMinimal_example : IsMinimal wholly
run-IsMinimal_example = run-IsMinimal full asset_accounts 250 partly frozen

abbrev account_state : ℕ
account_state = (expected_pda runtime 7 20).0

abbrev states : States
states = update (λ k. empty) account_state partly

abbrev other_state : ℕ
other_state = (expected_pda runtime 7 21).0

-- Account 20 has a locked balance and account 21 nothing frozen.
abbrev statuses : Statuses
statuses = update (λ k. thawed) account_state (record { fully_frozen = false; frozen_balance = 5 })

states-HaveStatuses : HaveStatuses false states statuses
states-HaveStatuses =
    update-HaveStatuses false (λ k. empty) (λ k. thawed) account_state partly
      (record { fully_frozen = false; frozen_balance = 5 }) (λ k. refl) refl

abbrev pairs : List ℕ
pairs = 20 ∷ account_state ∷ 21 ∷ other_state ∷ []

run_batch-Refines_example :
    RefinesAll false
      (run_batch runtime 7 batch_full asset_accounts pairs states)
      (spec_batch batch_full pairs statuses)
run_batch-Refines_example =
    run_batch-Refines runtime 7 batch_full asset_accounts pairs states statuses authorized
      (refl, (refl, tt)) states-HaveStatuses
