-- ===== src/Cap.antt =====
-- programs/cap/src: the supply cap of a mint, and the check that minting makes.
pub mod Laws
mod Tests
use asseto_solana_programs.Prelude.{ℕ, ⊤, Bool, true, false, ltb, leb, checked_add, if◌then◌else◌}
use asseto_solana_programs.Errors.{
  supply_cap, max_supply_too_low, max_supply_below_total_supply, max_supply_exceeded,
  max_supply_not_set, Error, Result, ok, err, ◌>>=◌, ◌>>◌, require, ok_or,
}
use asseto_solana_programs.Common.State.{
  AccountInfo, empty, loaded, unreadable, data_is_empty, try_from, MintState, AssetClassVersion,
}
use asseto_solana_programs.Common.Guards.{
  AssetAccounts, is_functionality_enabled, require_authorized,
}
use asseto_solana_programs.Common.Roles.{role_cap}
use asseto_solana_programs.Common.Functionalities.{cap_max_supply}

pub record MaxSupply : Type 0 where
  pub bump : ℕ
  pub max_supply : ℕ

-- A sum that overflows `u64` is past any cap.
unfoldable pub require_supply_below : ℕ → ℕ → ℕ → Result ⊤
require_supply_below max_supply total_supply amount_to_mint = do
  new_total_supply ←
      ok_or (checked_add total_supply amount_to_mint) (supply_cap max_supply_exceeded)
  require (leb new_total_supply max_supply) (supply_cap max_supply_exceeded)

unfoldable pub require_within_max_supply :
    Result MintState → AccountInfo MaxSupply → AssetClassVersion → ℕ → Result ⊤
unfolding require_supply_below
require_within_max_supply mint_account max_supply_pda version amount_to_mint = do
  enabled ← is_functionality_enabled version cap_max_supply
  elim (data_is_empty max_supply_pda) [
    | true ↦ if enabled then err (supply_cap max_supply_not_set) else ok tt
    | false ↦ do
      recorded ← try_from max_supply_pda
      state ← mint_account
      require_supply_below recorded.max_supply state.supply amount_to_mint
  ]

-- `init_if_needed`; the handler overwrites every field.
abbrev pub init_if_needed : AccountInfo MaxSupply → Result ⊤
init_if_needed empty = ok tt
init_if_needed (loaded _) = ok tt
init_if_needed (unreadable e) = err e

unfoldable pub set_max_supply : AssetAccounts → ℕ → AccountInfo MaxSupply → ℕ → Result MaxSupply
set_max_supply a bump max_supply_pda max_supply = do
  init_if_needed max_supply_pda
  require_authorized a role_cap cap_max_supply
  require (leb 1 max_supply) (supply_cap max_supply_too_low)
  state ← a.mint
  require (leb state.supply max_supply) (supply_cap max_supply_below_total_supply)
  ok (record { bump = bump; max_supply = max_supply })
