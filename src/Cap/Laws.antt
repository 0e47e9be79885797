-- ===== src/Cap/Laws.antt =====
-- The supply cap against its meaning, and one check of a total against a check of each amount.
use asseto_solana_programs.Prelude.{
  ℕ, ◌+◌, ◌≤◌, ◌<◌, ◌≡◌, refl, ◌↔◌, Bool, true, false, arith, leb, u64_mod,
}
use asseto_solana_programs.Errors.{
  supply_cap, max_supply_too_low, Error, Result, ok, err, require, >>=-eq-ok, >>-eq-ok,
}
use asseto_solana_programs.Common.State.{
  AccountInfo, empty, loaded, unreadable, MintState, AssetClassVersion,
}
use asseto_solana_programs.Common.Guards.{
  AssetAccounts, is_functionality_enabled, require_authorized,
}
use asseto_solana_programs.Common.Authorized.{IsAuthorized, require_authorized-IsAuthorized}
use asseto_solana_programs.Common.Roles.{role_cap}
use asseto_solana_programs.Common.Functionalities.{cap_max_supply}
use asseto_solana_programs.Cap.{
  MaxSupply, require_supply_below, require_within_max_supply, init_if_needed, set_max_supply,
}

-- The version of the asset tells whether it is capped.
abbrev pub IsReadable : AssetClassVersion → Type 0
IsReadable version = (b : Bool) × (is_functionality_enabled version cap_max_supply ≡ ok b)

-- Whether `amount` may be issued: an asset whose class requires a cap must have one; a cap that is
-- there binds, and so does the width of the supply.
abbrev pub Permits : Result MintState → AccountInfo MaxSupply → AssetClassVersion → ℕ → Type 0
Permits mint_account empty version amount =
    is_functionality_enabled version cap_max_supply ≡ ok false
Permits mint_account (loaded m) version amount =
    IsReadable version
    × ((s : MintState) × (mint_account ≡ ok s)
        × (s.supply + amount < u64_mod)
        × (s.supply + amount ≤ m.max_supply))
Permits mint_account (unreadable _) version amount = ⊥

require_supply_below_iff :
    (cap supply amount : ℕ)
    → (require_supply_below cap supply amount ≡ ok tt)
      ↔ ((supply + amount < u64_mod) × (supply + amount ≤ cap))
unfolding require_supply_below
require_supply_below_iff cap supply amount =
    ((λ h. (ground arith, ground arith)), λ (a, b). ground arith)

Permits-loaded :
    (mint_account : Result MintState) (m : MaxSupply) (version : AssetClassVersion) (amount : ℕ)
    → require_within_max_supply mint_account (loaded m) version amount ≡ ok tt
    → Permits mint_account (loaded m) version amount
unfolding require_within_max_supply
Permits-loaded mint_account m version amount h =
    let (b, readable, h1) =
      >>=-eq-ok (is_functionality_enabled version cap_max_supply) _ {b = tt} h in
    let (s, unpacks, h2) = >>=-eq-ok mint_account _ {b = tt} h1 in
    let (fits, below) = (require_supply_below_iff m.max_supply s.supply amount).0 h2 in
    ((b, readable), (s, unpacks, fits, below))

Permits-empty :
    (mint_account : Result MintState) (enabled : Result Bool) (version : AssetClassVersion)
    (amount : ℕ)
    → is_functionality_enabled version cap_max_supply ≡ enabled
    → require_within_max_supply mint_account empty version amount ≡ ok tt
    → is_functionality_enabled version cap_max_supply ≡ ok false
unfolding require_within_max_supply
Permits-empty mint_account (ok true) version amount e h = absurd (ground arith)
Permits-empty mint_account (ok false) version amount e h = e
Permits-empty mint_account (err x) version amount e h = absurd (ground arith)

unreadable_fails :
    (mint_account : Result MintState) (enabled : Result Bool) (x : Error)
    (version : AssetClassVersion) (amount : ℕ)
    → is_functionality_enabled version cap_max_supply ≡ enabled
    → require_within_max_supply mint_account (unreadable x) version amount ≡ ok tt
    → ⊥
unfolding require_within_max_supply
unreadable_fails mint_account (ok b) x version amount e h = ground arith
unreadable_fails mint_account (err y) x version amount e h = ground arith

-- The check passes exactly for the amounts that may be issued. Without a cap it passes if the version is
-- readable and does not have the cap functionality, and fails if it has: the functionality is read. With a
-- cap it passes if the version is readable, with the functionality or without, and the supply after the
-- issue is within the cap and a `u64`. With an unreadable cap it fails.
pub require_within_max_supply-Permits :
    (mint_account : Result MintState) (max_supply_pda : AccountInfo MaxSupply)
    (version : AssetClassVersion) (amount : ℕ)
    → (require_within_max_supply mint_account max_supply_pda version amount ≡ ok tt)
      ↔ Permits mint_account max_supply_pda version amount
unfolding require_within_max_supply
require_within_max_supply-Permits mint_account empty version amount = (
  Permits-empty mint_account (is_functionality_enabled version cap_max_supply) version amount refl,
  λ e. ground arith,
)
require_within_max_supply-Permits mint_account (loaded m) version amount = (
  Permits-loaded mint_account m version amount,
  λ ((b, readable), (s, unpacks, fits, below)).
      ground (arith, (require_supply_below_iff m.max_supply s.supply amount).1 (fits, below)),
)
require_within_max_supply-Permits mint_account (unreadable x) version amount = (
  unreadable_fails mint_account (is_functionality_enabled version cap_max_supply) x version amount
      refl,
  λ h. absurd h,
)

-- A cap that is set is the asset's cap role's choice, positive, and no lower than the supply.
pub set_max_supply_bounds :
    (a : AssetAccounts) (bump : ℕ) (max_supply_pda : AccountInfo MaxSupply) (max_supply : ℕ)
    {recorded : MaxSupply}
    → set_max_supply a bump max_supply_pda max_supply ≡ ok recorded
    → (recorded.max_supply ≡ max_supply)
      × (1 ≤ max_supply)
      × IsAuthorized a role_cap cap_max_supply
      × ((s : MintState) × (a.mint ≡ ok s) × (s.supply ≤ max_supply))
unfolding set_max_supply
set_max_supply_bounds a bump max_supply_pda max_supply {recorded} h =
    let (_, h1) = >>-eq-ok (init_if_needed max_supply_pda) _ {b = recorded} h in
    let (auth, h2) = >>-eq-ok (require_authorized a role_cap cap_max_supply) _ {b = recorded} h1 in
    let (positive, h3) =
      >>-eq-ok (require (leb 1 max_supply) (supply_cap max_supply_too_low)) _ {b = recorded} h2 in
    let (s, unpacks, h4) = >>=-eq-ok a.mint _ {b = recorded} h3 in
    (
      ground (arith, h4),
      ground (arith, positive),
      require_authorized-IsAuthorized a role_cap cap_max_supply auth,
      (s, unpacks, ground (arith, h4)),
    )
