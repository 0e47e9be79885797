-- ===== src/Coupon/History.antt =====
-- The transactions that can change the coupons and snapshots of a mint, and what a snapshot does.
pub mod Created
pub mod Invariant
pub mod Kept
pub mod Decision
use asseto_solana_programs.Prelude.{
  ℕ, zero, suc, ⊤, ◌+◌, ◌≤◌, ◌<◌, ◌≡◌, ◌≢◌, refl, ap, sym, subst, ◌∙◌, ◌⊎◌, inl, inr, Bool, true,
  false, Option, Bytes, arith, ltb, ◌==◌, eq_bool, is_some, update, checked_add, u64_mod,
}
use asseto_solana_programs.Prelude.Int.{ℤ, ◌<ℤ◌, ltb_ℤ}
use asseto_solana_programs.Errors.{
  Error, CouponError, external, constraint_failed, snapshot, snapshot_counter_overflow, coupon,
  invalid_coupon_id, invalid_coupon_period, invalid_payment_date, Result, ok, err, require, ok_or,
  ok_inj, >>=-eq-ok, >>-eq-ok,
}
use asseto_solana_programs.Common.ProgramIds.{Pubkey}
use asseto_solana_programs.Common.PdaSeeds.{Runtime}
use asseto_solana_programs.Common.State.{AccountInfo, empty, loaded, unreadable, data_is_empty}
use asseto_solana_programs.Common.Guards.{AssetAccounts, require_authorized}
use asseto_solana_programs.Common.Roles.{role_corporate_action}
use asseto_solana_programs.Common.Functionalities.{coupon_create_coupon, coupon_set_coupon_rate}
use asseto_solana_programs.Snapshot.{
  SnapshotCounter, SnapshotMerkleRoot, Snapshots, SnapshotBumps, snapshot_counter_or_init,
  assert_take_snapshot_authorized_caller, take_snapshot,
}
use asseto_solana_programs.Coupon.{
  CouponCounter, Coupon, Coupons, CouponArgs, CouponBumps, set_interest_rate,
  coupon_counter_or_init, coupon_authority, next_coupon, next_snapshot_id, create_coupon,
  set_coupon_rate,
}

-- An instruction of the coupon program, or of the snapshot program by a signer that is not the coupon
-- program's authority: that one is a derived address, for which only the coupon program signs.
pub data Step (rt : Runtime) (mint : Pubkey) : Coupons → Coupons → Type 0 where
  create :
      (a : AssetAccounts) (bumps : CouponBumps) (args : CouponArgs) (s : Coupons) {s' : Coupons}
      → create_coupon rt mint a bumps args s ≡ ok s'
      → Step rt mint s s'
  set_rate :
      (a : AssetAccounts) (s : Coupons) (id : ℕ) (c : Coupon) (rate decimals : Option ℕ)
      {c' : Coupon}
      → s.coupon id ≡ loaded c
      → set_coupon_rate a c rate decimals ≡ ok c'
      → Step rt mint s (record s { coupon = update s.coupon id (loaded c') })
  snapshot_by :
      (caller : Pubkey) (bumps : SnapshotBumps) (merkle_root : Bytes) (s : Coupons)
      {snapshots' : Snapshots}
      → caller ≢ coupon_authority rt mint
      → take_snapshot rt mint caller bumps merkle_root s.snapshots ≡ ok snapshots'
      → Step rt mint s (record s { snapshots = snapshots' })

pub data Steps (rt : Runtime) (mint : Pubkey) : Coupons → Coupons → Type 0 where
  stay : {s : Coupons} → Steps rt mint s s
  more : {s s' s'' : Coupons} → Step rt mint s s' → Steps rt mint s' s'' → Steps rt mint s s''

-- A mint without coupons.
abbrev pub start : Coupons
start = record {
  coupon_counter = AccountInfo.empty;
  coupon = λ _. AccountInfo.empty;
  snapshots = record {
    snapshot_counter = AccountInfo.empty;
    snapshot_merkle_root = λ _. AccountInfo.empty;
  };
}

-- How many coupons, and snapshots, the counters count.
abbrev pub CountsCoupons : ℕ → AccountInfo CouponCounter → Type 0
CountsCoupons n empty = n ≡ 0
CountsCoupons n (loaded c) = c.count ≡ n
CountsCoupons n (unreadable _) = ⊥

abbrev pub CountsSnapshots : ℕ → AccountInfo SnapshotCounter → Type 0
CountsSnapshots n empty = n ≡ 0
CountsSnapshots n (loaded c) = c.count ≡ n
CountsSnapshots n (unreadable _) = ⊥

abbrev pub IsDated : Coupon → Type 0
IsDated c = (c.period_start_date <ℤ c.period_end_date) × (c.period_end_date <ℤ c.payment_date)

abbrev pub HasWholeRate : Coupon → Type 0
HasWholeRate c =
    eq_bool (is_some c.interest_rate_override) (is_some c.interest_rate_override_decimals) ≡ true

pub next_coupon_count :
    (n bump : ℕ) (pda : AccountInfo CouponCounter) {initial counter : CouponCounter}
    → CountsCoupons n pda
    → coupon_counter_or_init pda ≡ ok initial
    → next_coupon bump initial ≡ ok counter
    → counter.count ≡ suc n
unfolding coupon_counter_or_init next_coupon
next_coupon_count n bump empty counts e h = ground (arith, counts, e, h)
next_coupon_count n bump (loaded c) counts e h = ground (arith, counts, e, h)
next_coupon_count n bump (unreadable _) counts e h = absurd counts

pub next_snapshot_id_count :
    (n : ℕ) (pda : AccountInfo SnapshotCounter)
    → CountsSnapshots n pda
    → next_snapshot_id pda ≡ ok n
unfolding next_snapshot_id
next_snapshot_id_count n empty counts = ap ok (sym counts)
next_snapshot_id_count n (loaded c) counts = ap ok counts
next_snapshot_id_count n (unreadable _) counts = absurd counts

pub initial_count :
    (n : ℕ) (pda : AccountInfo SnapshotCounter) {counter : SnapshotCounter}
    → CountsSnapshots n pda
    → snapshot_counter_or_init pda ≡ ok counter
    → counter.count ≡ n
unfolding snapshot_counter_or_init
initial_count n empty counts e = ground (arith, counts, e)
initial_count n (loaded c) counts e = ground (arith, counts, e)
initial_count n (unreadable _) counts e = absurd counts

next_count : (n : ℕ) (e : Error) {next : ℕ} → ok_or (checked_add n 1) e ≡ ok next → next ≡ suc n
next_count n e h = ground (arith, h)

pub require-true : (b : Bool) (e : Error) → require b e ≡ ok tt → b ≡ true
require-true true e h = refl
require-true false e h = cc

pub record Taken (rt : Runtime) (mint caller : Pubkey) (merkle_root : Bytes) (s s' : Snapshots)
    : Type 0 where
  pub counter : SnapshotCounter
  pub initial : snapshot_counter_or_init s.snapshot_counter ≡ ok counter
  pub root_bump : ℕ
  pub by_authority : coupon_authority rt mint ≡ caller
  pub fresh : data_is_empty (s.snapshot_merkle_root counter.count) ≡ true
  pub counted : CountsSnapshots (suc counter.count) s'.snapshot_counter
  pub written :
      s'.snapshot_merkle_root
      ≡ update s.snapshot_merkle_root counter.count
          (loaded (record { bump = root_bump; merkle_root = merkle_root }))

module _ (rt : Runtime) (mint : Pubkey) where
  pub take_snapshot-Taken :
      (caller : Pubkey) (bumps : SnapshotBumps) (merkle_root : Bytes) (s : Snapshots)
      {s' : Snapshots}
      → take_snapshot rt mint caller bumps merkle_root s ≡ ok s'
      → Taken rt mint caller merkle_root s s'
  unfolding take_snapshot assert_take_snapshot_authorized_caller coupon_authority
  take_snapshot-Taken caller bumps merkle_root s {s'} h =
      let (c, e, h1) = >>=-eq-ok (snapshot_counter_or_init s.snapshot_counter) _ {b = s'} h in
      let (free, h2) =
        >>-eq-ok
          (require (data_is_empty (s.snapshot_merkle_root c.count)) (external constraint_failed)) _
          {b = s'} h1 in
      let (auth, h3) =
        >>-eq-ok (assert_take_snapshot_authorized_caller rt mint caller) _ {b = s'} h2 in
      let (next, en, w) =
        >>=-eq-ok (ok_or (checked_add c.count 1) (snapshot snapshot_counter_overflow)) _ {b = s'}
          h3 in
      record {
        counter = c;
        initial = e;
        root_bump = bumps.snapshot_merkle_root;
        by_authority = ground (arith, auth);
        fresh = ground (arith, free);
        counted =
            subst (λ r. CountsSnapshots (suc c.count) r.snapshot_counter) (ok_inj w)
              (next_count c.count (snapshot snapshot_counter_overflow) en);
        written = ap (λ r. r.snapshot_merkle_root) (sym (ok_inj w));
      }
