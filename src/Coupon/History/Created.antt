-- ===== src/Coupon/History/Created.antt =====
-- What a coupon that has just been created says, and what it was created from.
use asseto_solana_programs.Prelude.{
  ℕ, ◌≡◌, ap, sym, subst, ◌∙◌, true, Option, arith, ◌==◌, ==_iff, eq_bool, is_some, update,
}
use asseto_solana_programs.Prelude.Int.{ℤ, ◌<ℤ◌, ltb_ℤ}
use asseto_solana_programs.Errors.{
  Error, CouponError, external, constraint_failed, invalid_coupon_id, invalid_coupon_period,
  invalid_payment_date, ok, require, ok_inj, >>=-eq-ok, >>-eq-ok,
}
use asseto_solana_programs.Common.ProgramIds.{Pubkey}
use asseto_solana_programs.Common.PdaSeeds.{Runtime}
use asseto_solana_programs.Common.State.{loaded, data_is_empty}
use asseto_solana_programs.Common.Guards.{AssetAccounts, require_authorized}
use asseto_solana_programs.Common.Roles.{role_corporate_action}
use asseto_solana_programs.Common.Functionalities.{coupon_create_coupon}
use asseto_solana_programs.Snapshot.{take_snapshot}
use asseto_solana_programs.Coupon.{
  CouponCounter, Coupon, Coupons, CouponArgs, CouponBumps, set_interest_rate,
  coupon_counter_or_init, fresh_coupon, coupon_authority, next_coupon, next_snapshot_id,
  create_coupon,
}
use asseto_solana_programs.Coupon.History.{
  IsDated, HasWholeRate, require-true, Taken, take_snapshot-Taken,
}

pub record Created (rt : Runtime) (mint : Pubkey) (a : AssetAccounts) (args : CouponArgs)
    (s s' : Coupons) : Type 0 where
  pub authorized : require_authorized a role_corporate_action coupon_create_coupon ≡ ok tt
  pub fresh : data_is_empty (s.coupon args.coupon_id) ≡ true
  pub initial : CouponCounter
  pub was : coupon_counter_or_init s.coupon_counter ≡ ok initial
  pub counter_bump : ℕ
  pub counter : CouponCounter
  pub next : next_coupon counter_bump initial ≡ ok counter
  pub counted : s'.coupon_counter ≡ loaded counter
  pub numbered : args.coupon_id ≡ counter.count
  pub c : Coupon
  pub stored : s'.coupon ≡ update s.coupon args.coupon_id (loaded c)
  pub snapshot_id : next_snapshot_id s.snapshots.snapshot_counter ≡ ok c.snapshot_id
  pub dated : IsDated c
  pub rate : HasWholeRate c
  pub taken : Taken rt mint (coupon_authority rt mint) args.merkle_root s.snapshots s'.snapshots

pub set_interest_rate-HasWholeRate :
    (c : Coupon) (rate decimals : Option ℕ) {c' : Coupon}
    → set_interest_rate c rate decimals ≡ ok c'
    → HasWholeRate c'
      × (c'
          ≡ record c { interest_rate_override = rate; interest_rate_override_decimals = decimals })
unfolding set_interest_rate
set_interest_rate-HasWholeRate c rate decimals {c'} h =
    let (whole, w) =
      >>-eq-ok
        (require (eq_bool (is_some rate) (is_some decimals))
          (Error.coupon CouponError.inconsistent_rate_override))
        _ {b = c'} h in
    let e = ok_inj w in
    (subst HasWholeRate e (require-true (eq_bool (is_some rate) (is_some decimals)) _ whole), sym e)

lt_of : (a b : ℤ) (e : Error) → require (ltb_ℤ a b) e ≡ ok tt → a <ℤ b
lt_of a b e h = ground (arith, h)

module _ (rt : Runtime) (mint : Pubkey) where
  pub create_coupon-Created :
      (a : AssetAccounts) (bumps : CouponBumps) (args : CouponArgs) (s : Coupons) {s' : Coupons}
      → create_coupon rt mint a bumps args s ≡ ok s'
      → Created rt mint a args s s'
  unfolding create_coupon
  create_coupon-Created a bumps args s {s'} h =
      let (initial, was, h1) = >>=-eq-ok (coupon_counter_or_init s.coupon_counter) _ {b = s'} h in
      let (free, h2) =
        >>-eq-ok (require (data_is_empty (s.coupon args.coupon_id)) (external constraint_failed)) _
          {b = s'} h1 in
      let (auth, h3) =
        >>-eq-ok (require_authorized a role_corporate_action coupon_create_coupon) _ {b = s'} h2 in
      let (period, h4) =
        >>-eq-ok
          (require (ltb_ℤ args.period_start_date args.period_end_date)
            (Error.coupon invalid_coupon_period))
          _ {b = s'} h3 in
      let (payment, h5) =
        >>-eq-ok
          (require (ltb_ℤ args.period_end_date args.payment_date)
            (Error.coupon invalid_payment_date))
          _ {b = s'} h4 in
      let (counter, next, h6) =
        >>=-eq-ok (next_coupon bumps.coupon_counter initial) _ {b = s'} h5 in
      let (id, h7) =
        >>-eq-ok (require (args.coupon_id == counter.count) (Error.coupon invalid_coupon_id)) _
          {b = s'} h6 in
      let (snapshot_id, read, h8) =
        >>=-eq-ok (next_snapshot_id s.snapshots.snapshot_counter) _ {b = s'} h7 in
      let (snaps, taken, h9) =
        >>=-eq-ok
          (take_snapshot rt mint (coupon_authority rt mint) bumps.snapshots args.merkle_root
            s.snapshots)
          _ {b = s'} h8 in
      let new = fresh_coupon bumps.coupon snapshot_id args in
      let (c, set, w) =
        >>=-eq-ok
          (set_interest_rate new args.interest_rate_override args.interest_rate_override_decimals) _
          {b = s'} h9 in
      let (whole, same) =
        set_interest_rate-HasWholeRate new args.interest_rate_override
          args.interest_rate_override_decimals set in
      let e = ok_inj w in
      let dates : IsDated new = (
        lt_of args.period_start_date args.period_end_date (Error.coupon invalid_coupon_period)
            period,
        lt_of args.period_end_date args.payment_date (Error.coupon invalid_payment_date) payment,
      ) in
      record {
        authorized = auth;
        fresh =
            require-true (data_is_empty (s.coupon args.coupon_id)) (external constraint_failed)
              free;
        initial = initial;
        was = was;
        counter_bump = bumps.coupon_counter;
        counter = counter;
        next = next;
        counted = ap (λ r. r.coupon_counter) (sym e);
        numbered =
            (==_iff args.coupon_id counter.count).0
              (require-true (args.coupon_id == counter.count) (Error.coupon invalid_coupon_id) id);
        c = c;
        stored = ap (λ r. r.coupon) (sym e);
        snapshot_id = read ∙ ap (λ r. ok r.snapshot_id) (sym same);
        dated = subst IsDated (sym same) dates;
        rate = whole;
        taken =
            subst
              (λ r.
                Taken rt mint (coupon_authority rt mint) args.merkle_root s.snapshots r.snapshots)
              e
              (take_snapshot-Taken rt mint (coupon_authority rt mint) bumps.snapshots
                args.merkle_root s.snapshots taken);
      }
