-- ===== src/AccessControl/Tests.antt =====
-- Granting and revoking the issuer's role.
use asseto_solana_programs.Prelude.{◌≡◌, refl, ◌↔◌, ◌⊎◌, true, false, [], ◌∷◌, arith}
use asseto_solana_programs.Errors.{ok}
use asseto_solana_programs.Common.Bitmask.{locate, is_set, set_bits, clear_bits}
use asseto_solana_programs.Common.Bitmask.Contents.{contains}
use asseto_solana_programs.Common.State.{loaded, Roles}
use asseto_solana_programs.Common.Guards.{
  require_role, require_not_paused, require_active, require_functionality, is_functionality_enabled,
  require_authorized,
}
use asseto_solana_programs.Common.Roles.{role_admin}
use asseto_solana_programs.Common.Examples.{every_role, asset_accounts}
use asseto_solana_programs.AccessControl.{mask_of, load_or_init, grant_roles, revoke_roles}
use asseto_solana_programs.AccessControl.Laws.{HasRole, grant_roles_grants, revoke_roles_revokes}

abbrev controller : Roles
controller = record { bump = 9; mask = 2 ∷ 0 ∷ [] }

abbrev controller_issuer : Roles
controller_issuer = record { bump = 9; mask = 18 ∷ 0 ∷ [] }

existing : load_or_init 9 (loaded controller) ≡ ok controller
unfolding load_or_init
existing = refl

granted : grant_roles asset_accounts 9 (loaded controller) (4 ∷ []) ≡ ok controller_issuer
unfolding grant_roles mask_of load_or_init set_bits require_authorized require_role
    require_not_paused require_active require_functionality is_functionality_enabled is_set locate
granted = refl

revoked : revoke_roles asset_accounts controller_issuer (4 ∷ []) ≡ ok controller
unfolding revoke_roles mask_of clear_bits require_authorized require_role require_not_paused
    require_active require_functionality is_functionality_enabled is_set locate
revoked = refl

grant_roles_grants_example :
    HasRole every_role role_admin
    × (HasRole controller_issuer 4 ↔ ((contains 4 (4 ∷ []) ≡ true) ⊎ HasRole controller 4))
grant_roles_grants_example =
    grant_roles_grants asset_accounts 9 (loaded controller) (4 ∷ []) controller 4 existing
      (omega arith, (omega arith, tt)) granted

revoke_roles_revokes_example :
    HasRole every_role role_admin
    × (HasRole controller 4 ↔ ((contains 4 (4 ∷ []) ≡ false) × HasRole controller_issuer 4))
revoke_roles_revokes_example =
    revoke_roles_revokes asset_accounts controller_issuer (4 ∷ []) 4
      (omega arith, (omega arith, tt)) revoked
