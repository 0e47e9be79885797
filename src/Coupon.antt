-- ===== src/Coupon.antt =====
-- programs/coupon/src: the coupons of a bond, each with a snapshot of the balances that it is paid on.
mod Tests
pub mod History
use asseto_solana_programs.Prelude.{
  ℕ, ⊤, ◌+◌, Bool, true, false, Option, none, some, Bytes, checked_add, ◌==◌, if◌then◌else◌,
  eq_bool, is_some, update,
}
use asseto_solana_programs.Prelude.Int.{ℤ, ltb_ℤ}
use asseto_solana_programs.Errors.{
  external, constraint_failed, coupon, invalid_coupon_id, invalid_coupon_period,
  invalid_payment_date, inconsistent_rate_override, coupon_counter_overflow, Result, ok, err, ◌>>=◌,
  ◌>>◌, require, ok_or,
}
use asseto_solana_programs.Common.ProgramIds.{Pubkey, coupon_program_id}
use asseto_solana_programs.Common.PdaSeeds.{Runtime, coupon_authority_seeds}
use asseto_solana_programs.Common.State.{
  AccountInfo, empty, loaded, unreadable, data_is_empty, try_from,
}
use asseto_solana_programs.Common.Guards.{AssetAccounts, require_authorized}
use asseto_solana_programs.Common.Roles.{role_corporate_action}
use asseto_solana_programs.Common.Functionalities.{coupon_create_coupon, coupon_set_coupon_rate}
use asseto_solana_programs.Snapshot.{SnapshotCounter, Snapshots, SnapshotBumps, take_snapshot}

pub record CouponCounter : Type 0 where
  pub bump : ℕ
  pub count : ℕ

pub record Coupon : Type 0 where
  pub bump : ℕ
  pub snapshot_id : ℕ
  pub period_start_date : ℤ
  pub period_end_date : ℤ
  pub payment_date : ℤ
  pub interest_rate_override : Option ℕ
  pub interest_rate_override_decimals : Option ℕ

unfoldable pub set_interest_rate : Coupon → Option ℕ → Option ℕ → Result Coupon
set_interest_rate c rate decimals = do
  require (eq_bool (is_some rate) (is_some decimals)) (coupon inconsistent_rate_override)
  ok (record c { interest_rate_override = rate; interest_rate_override_decimals = decimals })

-- The accounts of one mint: the counter, the coupons by the id in their seeds, and the snapshots.
pub record Coupons : Type 0 where
  pub coupon_counter : AccountInfo CouponCounter
  pub coupon : ℕ → AccountInfo Coupon
  pub snapshots : Snapshots

pub record CouponArgs : Type 0 where
  pub period_start_date : ℤ
  pub period_end_date : ℤ
  pub payment_date : ℤ
  pub coupon_id : ℕ
  pub interest_rate_override : Option ℕ
  pub interest_rate_override_decimals : Option ℕ
  pub merkle_root : Bytes

pub record CouponBumps : Type 0 where
  pub coupon_counter : ℕ
  pub coupon : ℕ
  pub snapshots : SnapshotBumps

-- `init_if_needed`: a new account holds zeros.
unfoldable pub coupon_counter_or_init : AccountInfo CouponCounter → Result CouponCounter
coupon_counter_or_init empty = ok (record { bump = 0; count = 0 })
coupon_counter_or_init (loaded counter) = ok counter
coupon_counter_or_init (unreadable e) = err e

unfoldable pub coupon_authority : Runtime → Pubkey → Pubkey
coupon_authority rt mint =
    (rt.find_program_address (coupon_authority_seeds mint) coupon_program_id).0

-- The counter after the next coupon, with the bump of a counter that counts none yet.
unfoldable pub next_coupon : ℕ → CouponCounter → Result CouponCounter
next_coupon bump counter =
    if counter.count == 0
    then ok (record { bump = bump; count = 1 })
    else (ok_or (checked_add counter.count 1) (coupon coupon_counter_overflow) >>= λ id.
        ok (record counter { count = id }))

-- The id that `take_snapshot` is about to give.
unfoldable pub next_snapshot_id : AccountInfo SnapshotCounter → Result ℕ
next_snapshot_id counter = elim (data_is_empty counter) [
  | true ↦ ok 0
  | false ↦ try_from counter >>= λ c. ok c.count
]

-- An `init` account holds zeros, so no rate, and then what the arguments say.
abbrev pub fresh_coupon : ℕ → ℕ → CouponArgs → Coupon
fresh_coupon bump snapshot_id args = record {
  bump = bump;
  snapshot_id = snapshot_id;
  period_start_date = args.period_start_date;
  period_end_date = args.period_end_date;
  payment_date = args.payment_date;
  interest_rate_override = none;
  interest_rate_override_decimals = none;
}

-- `coupon` is an `init` account.
unfoldable pub create_coupon :
    Runtime → Pubkey → AssetAccounts → CouponBumps → CouponArgs → Coupons → Result Coupons
unfolding coupon_counter_or_init coupon_authority next_coupon next_snapshot_id set_interest_rate
create_coupon rt mint a bumps args s = do
  initial ← coupon_counter_or_init s.coupon_counter
  require (data_is_empty (s.coupon args.coupon_id)) (external constraint_failed)
  require_authorized a role_corporate_action coupon_create_coupon
  require (ltb_ℤ args.period_start_date args.period_end_date) (coupon invalid_coupon_period)
  require (ltb_ℤ args.period_end_date args.payment_date) (coupon invalid_payment_date)
  counter ← next_coupon bumps.coupon_counter initial
  require (args.coupon_id == counter.count) (coupon invalid_coupon_id)
  snapshot_id ← next_snapshot_id s.snapshots.snapshot_counter
  snapshots' ←
      take_snapshot rt mint (coupon_authority rt mint) bumps.snapshots args.merkle_root s.snapshots
  c ←
      set_interest_rate (fresh_coupon bumps.coupon snapshot_id args) args.interest_rate_override
        args.interest_rate_override_decimals
  ok (record {
    coupon_counter = loaded counter;
    coupon = update s.coupon args.coupon_id (loaded c);
    snapshots = snapshots';
  })

unfoldable pub set_coupon_rate : AssetAccounts → Coupon → Option ℕ → Option ℕ → Result Coupon
unfolding set_interest_rate
set_coupon_rate a c interest_rate interest_rate_decimals = do
  require_authorized a role_corporate_action coupon_set_coupon_rate
  set_interest_rate c interest_rate interest_rate_decimals
