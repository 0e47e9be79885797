-- ===== src/Operations/Tests.antt =====
-- A forced transfer and a burn from an account of 50 tokens with a hold of 30.
use asseto_solana_programs.Prelude.{◌≡◌, refl, update}
use asseto_solana_programs.Errors.{ok}
use asseto_solana_programs.Common.Bitmask.{locate, is_set}
use asseto_solana_programs.Common.PdaSeeds.{
  permanent_delegate_seeds, permissioned_burn_seeds, as_ref,
}
use asseto_solana_programs.Common.State.{AccountInfo, loaded, HoldPosition}
use asseto_solana_programs.Common.Guards.{
  require_role, require_active, require_functionality, is_functionality_enabled,
  require_hold_covered, held_amount,
}
use asseto_solana_programs.Common.Examples.{runtime, asset_accounts, token_program, Book, book}
use asseto_solana_programs.Operations.{
  operations_authority, permissioned_burn_authority, controller_transfer, burn,
}

abbrev position : AccountInfo HoldPosition
position =
    loaded (record { mint = 7; token_account = 20; held_amount = 30; hold_count = 1; bump = 2 })

abbrev moved : Book
moved = record { supply = 50; balance = update (update (update (λ k. 0) 20 50) 20 30) 21 20 }

abbrev burnt : Book
burnt = record { supply = 30; balance = update (update (λ k. 0) 20 50) 20 30 }

transferred :
    controller_transfer runtime token_program 7 asset_accounts position 20 21 20 book ≡ ok moved
unfolding controller_transfer operations_authority permanent_delegate_seeds as_ref
    require_hold_covered held_amount require_role require_active require_functionality
    is_functionality_enabled is_set locate
transferred = refl

burned : burn runtime token_program 7 asset_accounts position 20 20 book ≡ ok burnt
unfolding burn operations_authority permissioned_burn_authority permissioned_burn_seeds
    permanent_delegate_seeds as_ref require_hold_covered held_amount require_role require_active
    require_functionality is_functionality_enabled is_set locate
burned = refl
