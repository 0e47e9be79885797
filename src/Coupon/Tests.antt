-- ===== src/Coupon/Tests.antt =====
-- Two coupons of a bond, and one that is refused.
use asseto_solana_programs.Prelude.{ℕ, ◌≡◌, refl, none, some, [], ◌∷◌, Bytes, arith, update, Option}
use asseto_solana_programs.Prelude.Int.{pos}
use asseto_solana_programs.Errors.{Error, CouponError, ok}
use asseto_solana_programs.Common.Bitmask.{locate, is_set}
use asseto_solana_programs.Common.PdaSeeds.{coupon_authority_seeds, as_ref}
use asseto_solana_programs.Common.State.{loaded}
use asseto_solana_programs.Common.Guards.{
  require_role, require_not_paused, require_active, require_functionality, is_functionality_enabled,
  require_authorized,
}
use asseto_solana_programs.Common.Roles.{role_corporate_action}
use asseto_solana_programs.Common.Functionalities.{coupon_create_coupon}
use asseto_solana_programs.Common.Examples.{runtime, asset_accounts}
use asseto_solana_programs.Snapshot.{
  SnapshotMerkleRoot, snapshot_counter_or_init, assert_take_snapshot_authorized_caller,
  take_snapshot,
}
use asseto_solana_programs.Coupon.{
  Coupon, Coupons, CouponArgs, CouponBumps, set_interest_rate, coupon_counter_or_init,
  coupon_authority, next_coupon, next_snapshot_id, create_coupon, set_coupon_rate,
}
use asseto_solana_programs.Coupon.History.{Steps, stay, more, create, set_rate, start}
use asseto_solana_programs.Coupon.History.Invariant.{IsNumbered, start-IsNumbered, Steps-IsNumbered}
use asseto_solana_programs.Coupon.History.Kept.{KeepsCoupon, Steps-Keeps}
use asseto_solana_programs.Coupon.History.Decision.{rejection, create_coupon_decides}

abbrev bumps : CouponBumps
bumps = record {
  coupon_counter = 1;
  coupon = 2;
  snapshots = record { snapshot_counter = 3; snapshot_merkle_root = 4 };
}

abbrev args : ℕ → Bytes → CouponArgs
args id root = record {
  period_start_date = pos 10;
  period_end_date = pos 20;
  payment_date = pos 30;
  coupon_id = id;
  interest_rate_override = none;
  interest_rate_override_decimals = none;
  merkle_root = root;
}

abbrev on_snapshot : ℕ → Option ℕ → Option ℕ → Coupon
on_snapshot id rate decimals = record {
  bump = 2;
  snapshot_id = id;
  period_start_date = pos 10;
  period_end_date = pos 20;
  payment_date = pos 30;
  interest_rate_override = rate;
  interest_rate_override_decimals = decimals;
}

abbrev root : Bytes → SnapshotMerkleRoot
root bytes = record { bump = 4; merkle_root = bytes }

abbrev first : Coupons
first = record {
  coupon_counter = loaded (record { bump = 1; count = 1 });
  coupon = update start.coupon 1 (loaded (on_snapshot 0 none none));
  snapshots = record {
    snapshot_counter = loaded (record { bump = 3; count = 1 });
    snapshot_merkle_root = update start.snapshots.snapshot_merkle_root 0 (loaded (root (17 ∷ [])));
  };
}

abbrev rated : Coupons
rated = record first { coupon = update first.coupon 1 (loaded (on_snapshot 0 (some 7) (some 2))) }

abbrev second : Coupons
second = record {
  coupon_counter = loaded (record { bump = 1; count = 2 });
  coupon = update rated.coupon 2 (loaded (on_snapshot 1 none none));
  snapshots = record {
    snapshot_counter = loaded (record { bump = 3; count = 2 });
    snapshot_merkle_root = update rated.snapshots.snapshot_merkle_root 1 (loaded (root (18 ∷ [])));
  };
}

authorized : require_authorized asset_accounts role_corporate_action coupon_create_coupon ≡ ok tt
unfolding require_authorized require_role require_not_paused require_active require_functionality
    is_functionality_enabled is_set locate
authorized = refl

first_created : create_coupon runtime 7 asset_accounts bumps (args 1 (17 ∷ [])) start ≡ ok first
unfolding create_coupon coupon_counter_or_init coupon_authority next_coupon next_snapshot_id
    set_interest_rate take_snapshot snapshot_counter_or_init assert_take_snapshot_authorized_caller
    coupon_authority_seeds as_ref require_authorized require_role require_not_paused require_active
    require_functionality is_functionality_enabled is_set locate
first_created = refl

rate_set :
    set_coupon_rate asset_accounts (on_snapshot 0 none none) (some 7) (some 2)
    ≡ ok (on_snapshot 0 (some 7) (some 2))
unfolding set_coupon_rate set_interest_rate require_authorized require_role require_not_paused
    require_active require_functionality is_functionality_enabled is_set locate
rate_set = refl

second_created : create_coupon runtime 7 asset_accounts bumps (args 2 (18 ∷ [])) rated ≡ ok second
unfolding create_coupon coupon_counter_or_init coupon_authority next_coupon next_snapshot_id
    set_interest_rate take_snapshot snapshot_counter_or_init assert_take_snapshot_authorized_caller
    coupon_authority_seeds as_ref require_authorized require_role require_not_paused require_active
    require_functionality is_functionality_enabled is_set locate
second_created = refl

later : Steps runtime 7 first second
later =
    more (set_rate asset_accounts first 1 (on_snapshot 0 none none) (some 7) (some 2) refl rate_set)
      (more (create asset_accounts bumps (args 2 (18 ∷ [])) rated second_created) stay)

Steps-IsNumbered_example : (n : ℕ) × IsNumbered n second
Steps-IsNumbered_example =
    Steps-IsNumbered runtime 7
      (more (create asset_accounts bumps (args 1 (17 ∷ [])) start first_created) later)

Steps-Keeps_example :
    KeepsCoupon (on_snapshot 0 none none) (second.coupon 1)
    × (second.snapshots.snapshot_merkle_root 0 ≡ loaded (root (17 ∷ [])))
Steps-Keeps_example =
    Steps-Keeps runtime 7 1 (on_snapshot 0 none none) (root (17 ∷ [])) later refl refl

-- The first coupon, and one whose number is not the next one.
create_coupon_decides_example :
    (s' : Coupons) × (create_coupon runtime 7 asset_accounts bumps (args 1 (17 ∷ [])) start ≡ ok s')
    × (rejection 0 (args 1 (17 ∷ [])) ≡ none → IsNumbered 1 s')
create_coupon_decides_example =
    create_coupon_decides runtime 7 asset_accounts authorized 0 bumps (args 1 (17 ∷ [])) start
      start-IsNumbered (omega arith)

refused : rejection 1 (args 3 []) ≡ some (Error.coupon CouponError.invalid_coupon_id)
refused = refl
