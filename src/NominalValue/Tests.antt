-- ===== src/NominalValue/Tests.antt =====
-- A value that is published twice, and corrected.
use asseto_solana_programs.Prelude.{ℕ, ◌≡◌, refl, [], ◌∷◌, arith}
use asseto_solana_programs.Prelude.Int.{ℤ, pos}
use asseto_solana_programs.Errors.{nominal_value, effective_datetime_mismatch, ok, err}
use asseto_solana_programs.Common.Bitmask.{locate, is_set}
use asseto_solana_programs.Common.State.{AccountInfo}
use asseto_solana_programs.Common.Guards.{
  require_role, require_not_paused, require_active, require_functionality, is_functionality_enabled,
  require_authorized,
}
use asseto_solana_programs.Common.Examples.{asset_accounts}
use asseto_solana_programs.NominalValue.{
  unit, NominalValue, initialize_nominal_value, publish_nominal_value, republish_nominal_value,
}
use asseto_solana_programs.NominalValue.History.{
  Publication, Published, initialized, published, republished, Reports, IsDescending, IsPast,
  Published-Reports,
}

abbrev worth : ℕ → ℤ → NominalValue
worth value since = record {
  bump = 1;
  nominal_value_currency = 69 ∷ 85 ∷ 82 ∷ [];
  nominal_value_publish_type = unit;
  nominal_value_decimals = 2;
  nominal_value = value;
  effective_datetime = since;
}

opened :
    initialize_nominal_value asset_accounts 1 AccountInfo.empty 2 (69 ∷ 85 ∷ 82 ∷ []) unit
    ≡ ok (worth 0 (pos 0))
unfolding initialize_nominal_value require_authorized require_role require_not_paused require_active
    require_functionality is_functionality_enabled is_set locate
opened = refl

first :
    publish_nominal_value (pos 20) asset_accounts (worth 0 (pos 0)) 100 (pos 10)
    ≡ ok (worth 100 (pos 10))
unfolding publish_nominal_value require_authorized require_role require_not_paused require_active
    require_functionality is_functionality_enabled is_set locate
first = refl

correction :
    republish_nominal_value asset_accounts (worth 100 (pos 10)) 101 (pos 10)
    ≡ ok (worth 101 (pos 10))
unfolding republish_nominal_value require_authorized require_role require_not_paused require_active
    require_functionality is_functionality_enabled is_set locate
correction = refl

second :
    publish_nominal_value (pos 30) asset_accounts (worth 101 (pos 10)) 102 (pos 20)
    ≡ ok (worth 102 (pos 20))
unfolding publish_nominal_value require_authorized require_role require_not_paused require_active
    require_functionality is_functionality_enabled is_set locate
second = refl

not_the_newest :
    republish_nominal_value asset_accounts (worth 102 (pos 20)) 99 (pos 10)
    ≡ err (nominal_value effective_datetime_mismatch)
unfolding republish_nominal_value require_authorized require_role require_not_paused require_active
    require_functionality is_functionality_enabled is_set locate
not_the_newest = refl

abbrev entry : ℕ → ℤ → Publication
entry value since = record { since = since; value = value }

history : Published (pos 30) (worth 102 (pos 20)) (entry 102 (pos 20) ∷ entry 101 (pos 10) ∷ [])
history =
    published (pos 25) (pos 30) asset_accounts (worth 101 (pos 10)) (entry 101 (pos 10) ∷ []) 102
      (pos 20)
      (republished (pos 20) (pos 25) asset_accounts (worth 100 (pos 10)) (entry 100 (pos 10) ∷ [])
        101 (pos 10)
        (published (pos 5) (pos 20) asset_accounts (worth 0 (pos 0)) [] 100 (pos 10)
          (initialized (pos 5) asset_accounts 1 2 (69 ∷ 85 ∷ 82 ∷ []) unit opened) (omega arith)
          first)
        (omega arith) correction)
      (omega arith) second

Published-Reports_example :
    Reports (worth 102 (pos 20)) (entry 102 (pos 20) ∷ entry 101 (pos 10) ∷ [])
    × IsDescending (entry 102 (pos 20) ∷ entry 101 (pos 10) ∷ [])
    × IsPast (pos 30) (entry 102 (pos 20) ∷ entry 101 (pos 10) ∷ [])
Published-Reports_example = Published-Reports history
