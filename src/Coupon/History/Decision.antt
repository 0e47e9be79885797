-- ===== src/Coupon/History/Decision.antt =====
-- Which coupons are accepted: the errors of `create_coupon`, in their order.
use asseto_solana_programs.Prelude.{
  ℕ, suc, ◌+◌, ◌<◌, ◌≡◌, refl, ap, sym, ◌∙◌, inl, inr, true, not, ◌&&◌, Option, none, some, Bytes,
  arith, ltb, leb, ◌==◌, eq_bool, is_some, if◌then◌else◌, update, Bool-cases, u64_mod,
}
use asseto_solana_programs.Prelude.Int.{ltb_ℤ}
use asseto_solana_programs.Errors.{
  Error, CouponError, external, constraint_failed, Result, ok, err, Result-cases,
}
use asseto_solana_programs.Common.ProgramIds.{Pubkey}
use asseto_solana_programs.Common.PdaSeeds.{Runtime}
use asseto_solana_programs.Common.State.{AccountInfo, empty, loaded, unreadable, data_is_empty}
use asseto_solana_programs.Common.Guards.{AssetAccounts, require_authorized}
use asseto_solana_programs.Common.Roles.{role_corporate_action}
use asseto_solana_programs.Common.Functionalities.{coupon_create_coupon}
use asseto_solana_programs.Snapshot.{
  SnapshotCounter, SnapshotMerkleRoot, Snapshots, SnapshotBumps, snapshot_counter_or_init,
  assert_take_snapshot_authorized_caller, take_snapshot,
}
use asseto_solana_programs.Coupon.{
  CouponCounter, Coupon, Coupons, CouponArgs, CouponBumps, fresh_coupon, set_interest_rate,
  coupon_counter_or_init, coupon_authority, next_coupon, next_snapshot_id, create_coupon,
}
use asseto_solana_programs.Coupon.History.{
  CountsCoupons, CountsSnapshots, next_snapshot_id_count, initial_count,
}
use asseto_solana_programs.Coupon.History.Created.{create_coupon-Created}
use asseto_solana_programs.Coupon.History.Invariant.{
  CouponSlot, RootSlot, IsNumbered, Created-IsNumbered,
}

-- What is wrong with the arguments of the next coupon after n of them.
abbrev pub rejection : ℕ → CouponArgs → Option Error
rejection n args =
    if ltb 0 args.coupon_id && leb args.coupon_id n
    then some (external constraint_failed)
    else if not (ltb_ℤ args.period_start_date args.period_end_date)
    then some (Error.coupon CouponError.invalid_coupon_period)
    else if not (ltb_ℤ args.period_end_date args.payment_date)
    then some (Error.coupon CouponError.invalid_payment_date)
    else if not (args.coupon_id == suc n)
    then some (Error.coupon CouponError.invalid_coupon_id)
    else if eq_bool (is_some args.interest_rate_override)
        (is_some args.interest_rate_override_decimals)
    then none
    else some (Error.coupon CouponError.inconsistent_rate_override)

abbrev pub outcome : Option Error → Coupons → Result Coupons
outcome none s = ok s
outcome (some e) s = err e

-- The accounts with one more coupon.
abbrev with_coupon : CouponCounter → ℕ → CouponBumps → CouponArgs → Snapshots → Coupons → Coupons
with_coupon counter n bumps args snaps s = record {
  coupon_counter = loaded counter;
  coupon = update s.coupon args.coupon_id (
      loaded (record (fresh_coupon bumps.coupon n args) {
        interest_rate_override = args.interest_rate_override;
        interest_rate_override_decimals = args.interest_rate_override_decimals;
      }));
  snapshots = snaps;
}

taken_slot :
    (n k : ℕ) (pda : AccountInfo Coupon)
    → CouponSlot n k pda
    → data_is_empty pda ≡ not (ltb 0 k && leb k n)
taken_slot n k empty h = ground (arith, h)
taken_slot n k (loaded c) (p, below, snap, dated, rate) = ground (arith, p, below)
taken_slot n k (unreadable _) h = absurd h

free_root :
    (n : ℕ) (pda : AccountInfo SnapshotMerkleRoot) → RootSlot n n pda → data_is_empty pda ≡ true
free_root n empty h = refl
free_root n (loaded _) h = absurd (omega (arith, h))
free_root n (unreadable _) h = absurd h

counter_ready :
    (n bump : ℕ) (pda : AccountInfo CouponCounter)
    → suc n < u64_mod
    → CountsCoupons n pda
    → (initial counter : CouponCounter) × (coupon_counter_or_init pda ≡ ok initial)
      × (next_coupon bump initial ≡ ok counter)
      × (counter.count ≡ suc n)
unfolding coupon_counter_or_init next_coupon
counter_ready n bump empty fits counts =
    (_, record { bump = bump; count = 1 }, refl, refl, ap suc (sym counts))
counter_ready n bump (loaded c) fits counts = elim (Bool-cases (c.count == 0)) [
  | inl none_yet ↦ (
    c,
    record { bump = bump; count = 1 },
    refl,
    ground (arith, none_yet),
    ground (arith, none_yet, counts),
  )
  | inr some_yet ↦ (
    c,
    record c { count = c.count + 1 },
    refl,
    ground (arith, some_yet, fits, counts),
    ground (arith, counts),
  )
]
counter_ready n bump (unreadable _) fits counts = absurd counts

snapshot_counter_ready :
    (n : ℕ) (pda : AccountInfo SnapshotCounter)
    → CountsSnapshots n pda
    → (counter : SnapshotCounter) × (snapshot_counter_or_init pda ≡ ok counter)
unfolding snapshot_counter_or_init
snapshot_counter_ready n empty counts = (_, refl)
snapshot_counter_ready n (loaded c) counts = (c, refl)
snapshot_counter_ready n (unreadable _) counts = absurd counts

module _ (rt : Runtime) (mint : Pubkey) where
  caller_is_authority :
      assert_take_snapshot_authorized_caller rt mint (coupon_authority rt mint) ≡ ok tt
  unfolding assert_take_snapshot_authorized_caller coupon_authority
  caller_is_authority = ground arith

  snapshot_taken :
      (n : ℕ) (bumps : SnapshotBumps) (merkle_root : Bytes) (s : Snapshots)
      → suc n < u64_mod
      → CountsSnapshots n s.snapshot_counter
      → RootSlot n n (s.snapshot_merkle_root n)
      → (s' : Snapshots) × (take_snapshot rt mint (coupon_authority rt mint) bumps merkle_root s
          ≡ ok s')
  unfolding take_snapshot
  snapshot_taken n bumps merkle_root s fits counts free =
      let (c, e) = snapshot_counter_ready n s.snapshot_counter counts in
      let at = initial_count n s.snapshot_counter counts e in
      let free' : data_is_empty (s.snapshot_merkle_root c.count) ≡ true =
        ap (λ k. data_is_empty (s.snapshot_merkle_root k)) at
        ∙ free_root n (s.snapshot_merkle_root n) free in
      elim (Result-cases (take_snapshot rt mint (coupon_authority rt mint) bumps merkle_root s)) [
        | inl taken ↦ taken
        | inr (code, failed) ↦
            absurd (ground (arith, failed, e, at, free', caller_is_authority, fits))
      ]

  module _ (a : AssetAccounts)
      (authorized : require_authorized a role_corporate_action coupon_create_coupon ≡ ok tt) where
    decided :
        (n : ℕ) (bumps : CouponBumps) (args : CouponArgs) (s : Coupons)
        (initial counter : CouponCounter) (snaps : Snapshots)
        → data_is_empty (s.coupon args.coupon_id)
          ≡ not (ltb 0 args.coupon_id && leb args.coupon_id n)
        → coupon_counter_or_init s.coupon_counter ≡ ok initial
        → next_coupon bumps.coupon_counter initial ≡ ok counter
        → counter.count ≡ suc n
        → next_snapshot_id s.snapshots.snapshot_counter ≡ ok n
        → take_snapshot rt mint
            (coupon_authority rt mint)
            bumps.snapshots
            args.merkle_root
            s.snapshots
          ≡ ok snaps
        → create_coupon rt mint a bumps args s
          ≡ outcome (rejection n args) (with_coupon counter n bumps args snaps s)
    unfolding create_coupon set_interest_rate
    decided n bumps args s initial counter snaps slot was next count read taken =
        rw (was, slot, authorized, next, count, read, taken) (ground arith)

    -- On a mint with n coupons, fewer than 2 ^ 64 - 1, an authorized `create_coupon` fails with what
    -- is first wrong with its arguments, and with nothing wrong it leaves n + 1 coupons.
    pub create_coupon_decides :
        (n : ℕ) (bumps : CouponBumps) (args : CouponArgs) (s : Coupons)
        → IsNumbered n s
        → suc n < u64_mod
        → (s' : Coupons) × (create_coupon rt mint a bumps args s ≡ outcome (rejection n args) s')
          × (rejection n args ≡ none → IsNumbered (suc n) s')
    create_coupon_decides n bumps args s valid fits =
        let slot =
          taken_slot n args.coupon_id (s.coupon args.coupon_id) (valid.coupons args.coupon_id) in
        let (initial, counter, was, next, count) =
          counter_ready n bumps.coupon_counter s.coupon_counter fits valid.coupons_counted in
        let read = next_snapshot_id_count n s.snapshots.snapshot_counter valid.snapshots_counted in
        let (snaps, taken) =
          snapshot_taken n bumps.snapshots args.merkle_root s.snapshots fits valid.snapshots_counted
            (valid.roots n) in
        let e = decided n bumps args s initial counter snaps slot was next count read taken in
        let s' = with_coupon counter n bumps args snaps s in
        (
          s',
          e,
          λ fine.
              Created-IsNumbered rt mint n a args valid
                (create_coupon-Created rt mint a bumps args s (e ∙ ap (λ r. outcome r s') fine)),
        )
