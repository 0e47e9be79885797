-- ===== src/Common/Authorized.antt =====
-- What the checks that open a handler ask of the caller and of the asset.
use asseto_solana_programs.Prelude.{ℕ, ◌≡◌}
use asseto_solana_programs.Errors.{ok, >>-eq-ok}
use asseto_solana_programs.Common.Guards.{
  AssetAccounts, require_role, require_functionality, require_not_paused, require_active,
  require_authorized,
}

-- The caller has the role, and the asset is not paused, is active, and supports the functionality.
abbrev pub IsAuthorized : AssetAccounts → ℕ → ℕ → Type 0
IsAuthorized a role functionality =
    (require_role a.authority_roles_pda role ≡ ok tt)
    × (require_not_paused a.mint ≡ ok tt)
    × (require_active a.deactivate_pda ≡ ok tt)
    × (require_functionality a.asset_class_version_pda functionality ≡ ok tt)

pub require_authorized-IsAuthorized :
    (a : AssetAccounts) (role functionality : ℕ)
    → require_authorized a role functionality ≡ ok tt
    → IsAuthorized a role functionality
unfolding require_authorized
require_authorized-IsAuthorized a role functionality h =
    let (has_role, h1) = >>-eq-ok (require_role a.authority_roles_pda role) _ {b = tt} h in
    let (unpaused, h2) = >>-eq-ok (require_not_paused a.mint) _ {b = tt} h1 in
    let (active, supported) = >>-eq-ok (require_active a.deactivate_pda) _ {b = tt} h2 in
    (has_role, unpaused, active, supported)
