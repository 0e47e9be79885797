-- ===== src/Cap/Tests.antt =====
-- A cap of 120 on a supply of 100.
use asseto_solana_programs.Prelude.{◌≤◌, ◌≡◌, refl, ◌↔◌}
use asseto_solana_programs.Errors.{ok}
use asseto_solana_programs.Common.Bitmask.{locate, is_set}
use asseto_solana_programs.Common.State.{empty, loaded, MintState}
use asseto_solana_programs.Common.Guards.{
  require_role, require_not_paused, require_active, require_functionality, is_functionality_enabled,
  require_authorized,
}
use asseto_solana_programs.Common.Authorized.{IsAuthorized}
use asseto_solana_programs.Common.Roles.{role_cap}
use asseto_solana_programs.Common.Functionalities.{cap_max_supply}
use asseto_solana_programs.Common.Examples.{version, mint_state, asset_accounts}
use asseto_solana_programs.Cap.{MaxSupply, require_within_max_supply, set_max_supply}
use asseto_solana_programs.Cap.Laws.{
  Permits, require_within_max_supply-Permits, set_max_supply_bounds,
}

abbrev cap : MaxSupply
cap = record { bump = 4; max_supply = 120 }

require_within_max_supply-Permits_example :
    (require_within_max_supply (ok (mint_state 100)) (loaded cap) version 20 ≡ ok tt)
    ↔ Permits (ok (mint_state 100)) (loaded cap) version 20
require_within_max_supply-Permits_example =
    require_within_max_supply-Permits (ok (mint_state 100)) (loaded cap) version 20

cap_set : set_max_supply asset_accounts 4 empty 120 ≡ ok cap
unfolding set_max_supply require_authorized require_role require_not_paused require_active
    require_functionality is_functionality_enabled is_set locate
cap_set = refl

set_max_supply_bounds_example :
    (cap.max_supply ≡ 120)
    × (1 ≤ 120)
    × IsAuthorized asset_accounts role_cap cap_max_supply
    × ((s : MintState) × (asset_accounts.mint ≡ ok s) × (s.supply ≤ 120))
set_max_supply_bounds_example = set_max_supply_bounds asset_accounts 4 empty 120 cap_set
