-- ===== src/Coupon/History/Invariant.antt =====
-- What every history of a mint's coupons keeps: the numbering, the snapshots, and what is written once.
use asseto_solana_programs.Prelude.{
  ℕ, suc, ◌≤◌, ◌<◌, ◌≡◌, ◌≢◌, refl, ap, sym, subst, ◌∙◌, ◌⊎◌, inl, inr, Option, arith, ◌==◌, update,
  update_self, update_ne, Bool-cases, ==_iff,
}
use asseto_solana_programs.Errors.{ok, >>-eq-ok, ok_inj}
use asseto_solana_programs.Common.ProgramIds.{Pubkey}
use asseto_solana_programs.Common.PdaSeeds.{Runtime}
use asseto_solana_programs.Common.State.{AccountInfo, empty, loaded, unreadable}
use asseto_solana_programs.Common.Guards.{AssetAccounts, require_authorized}
use asseto_solana_programs.Common.Roles.{role_corporate_action}
use asseto_solana_programs.Common.Functionalities.{coupon_set_coupon_rate}
use asseto_solana_programs.Snapshot.{SnapshotMerkleRoot}
use asseto_solana_programs.Coupon.{Coupon, Coupons, CouponArgs, set_interest_rate, set_coupon_rate}
use asseto_solana_programs.Coupon.History.{
  Step, create, set_rate, snapshot_by, Steps, stay, more, start, CountsCoupons, CountsSnapshots,
  IsDated, HasWholeRate, next_coupon_count, next_snapshot_id_count, initial_count,
  take_snapshot-Taken,
}
use asseto_solana_programs.Coupon.History.Created.{
  Created, set_interest_rate-HasWholeRate, create_coupon-Created,
}

-- With n coupons: coupon k, for k from 1 to n, is on snapshot k - 1, and its dates are in order.
abbrev pub CouponSlot : ℕ → ℕ → AccountInfo Coupon → Type 0
CouponSlot n k empty = (k ≡ 0) ⊎ (n < k)
CouponSlot n k (loaded c) = (0 < k) × (k ≤ n) × (suc c.snapshot_id ≡ k) × IsDated c × HasWholeRate c
CouponSlot n k (unreadable _) = ⊥

abbrev pub RootSlot : ℕ → ℕ → AccountInfo SnapshotMerkleRoot → Type 0
RootSlot n k empty = n ≤ k
RootSlot n k (loaded _) = k < n
RootSlot n k (unreadable _) = ⊥

pub record IsNumbered (n : ℕ) (s : Coupons) : Type 0 where
  pub coupons_counted : CountsCoupons n s.coupon_counter
  pub snapshots_counted : CountsSnapshots n s.snapshots.snapshot_counter
  pub coupons : (k : ℕ) → CouponSlot n k (s.coupon k)
  pub roots : (k : ℕ) → RootSlot n k (s.snapshots.snapshot_merkle_root k)

pub start-IsNumbered : IsNumbered 0 start
start-IsNumbered = record {
  coupons_counted = refl;
  snapshots_counted = refl;
  coupons = λ k. zero_or_pos k;
  roots = λ k. omega arith;
}
  where
    zero_or_pos : (k : ℕ) → (k ≡ 0) ⊎ (0 < k)
    zero_or_pos k = ground arith

next-CouponSlot :
    (n k : ℕ) (pda : AccountInfo Coupon) → k ≢ suc n → CouponSlot n k pda → CouponSlot (suc n) k pda
next-CouponSlot n k empty other (inl z) = inl z
next-CouponSlot n k empty other (inr above) = inr (omega (arith, above, other))
next-CouponSlot n k (loaded c) other (p, below, snap, dated, rate) =
    (p, omega (arith, below), snap, dated, rate)
next-CouponSlot n k (unreadable _) other h = absurd h

next-RootSlot :
    (n k : ℕ) (pda : AccountInfo SnapshotMerkleRoot)
    → k ≢ n
    → RootSlot n k pda
    → RootSlot (suc n) k pda
next-RootSlot n k empty other h = omega (arith, h, other)
next-RootSlot n k (loaded _) other h = omega (arith, h)
next-RootSlot n k (unreadable _) other h = absurd h

-- Every slot of a store that is written at one key.
written-slots {ℓ} :
    {V : Type 0} (P : ℕ → V → Type ℓ) (f : ℕ → V) (key : ℕ) (v : V)
    → P key v
    → ((k : ℕ) → k ≢ key → P k (f k))
    → (k : ℕ) → P k (update f key v k)
written-slots P f key v new old k = elim (Bool-cases (key == k)) [
  | inl here ↦
      subst (λ j. P j (update f key v j)) ((==_iff key k).0 here)
        (subst (P key) (sym (update_self f key v)) new)
  | inr other ↦
      let away : k ≢ key = ground (arith, other) in
      subst (P k) (sym (update_ne f key k v away)) (old k away)
]

-- A rate is set on a coupon that is there, and changes nothing but the rate.
pub rated :
    (a : AssetAccounts) (c : Coupon) (rate decimals : Option ℕ) {c' : Coupon}
    → set_coupon_rate a c rate decimals ≡ ok c'
    → HasWholeRate c'
      × (c'
          ≡ record c { interest_rate_override = rate; interest_rate_override_decimals = decimals })
unfolding set_coupon_rate
rated a c rate decimals {c'} h =
    set_interest_rate-HasWholeRate c rate decimals
      (>>-eq-ok (require_authorized a role_corporate_action coupon_set_coupon_rate)
        (set_interest_rate c rate decimals) {b = c'} h).1

rated-CouponSlot :
    (n k : ℕ) (a : AssetAccounts) (c : Coupon) (rate decimals : Option ℕ) {c' : Coupon}
    → set_coupon_rate a c rate decimals ≡ ok c'
    → CouponSlot n k (loaded c)
    → CouponSlot n k (loaded c')
rated-CouponSlot n k a c rate decimals h (p, below, snap, dated, _) =
    let (whole, e) = rated a c rate decimals h in
    (p, below, ap (λ x. suc x.snapshot_id) e ∙ snap, subst IsDated (sym e) dated, whole)

module _ (rt : Runtime) (mint : Pubkey) where
  pub Created-IsNumbered :
      (n : ℕ) (a : AssetAccounts) (args : CouponArgs) {s s' : Coupons}
      → IsNumbered n s
      → Created rt mint a args s s'
      → IsNumbered (suc n) s'
  Created-IsNumbered n a args {s} {s'} valid new =
      let count =
        next_coupon_count n new.counter_bump s.coupon_counter valid.coupons_counted new.was
          new.next in
      let id : args.coupon_id ≡ suc n = new.numbered ∙ count in
      let snap : new.c.snapshot_id ≡ n = ok_inj (
        sym new.snapshot_id
        ∙ next_snapshot_id_count n s.snapshots.snapshot_counter valid.snapshots_counted) in
      let at : new.taken.counter.count ≡ n =
        initial_count n s.snapshots.snapshot_counter valid.snapshots_counted new.taken.initial in
      record {
        coupons_counted = subst (CountsCoupons (suc n)) (sym new.counted) count;
        snapshots_counted =
            subst (λ m. CountsSnapshots (suc m) s'.snapshots.snapshot_counter) at new.taken.counted;
        coupons = λ k.
            subst (λ f. CouponSlot (suc n) k (f k)) (sym new.stored)
              (written-slots (CouponSlot (suc n)) s.coupon args.coupon_id (loaded new.c)
                (omega (arith, id), omega (arith, id), ap suc snap ∙ sym id, new.dated, new.rate)
                (λ j away.
                  next-CouponSlot n j (s.coupon j) (λ e. away (e ∙ sym id)) (valid.coupons j))
                k);
        roots = λ k.
            subst (λ f. RootSlot (suc n) k (f k)) (sym new.taken.written)
              (written-slots (RootSlot (suc n)) s.snapshots.snapshot_merkle_root
                new.taken.counter.count _ (omega (arith, at))
                (λ j away.
                  next-RootSlot n j (s.snapshots.snapshot_merkle_root j) (λ e. away (e ∙ sym at))
                    (valid.roots j))
                k);
      }

  step-IsNumbered :
      (n : ℕ) {s s' : Coupons} → Step rt mint s s' → IsNumbered n s → (m : ℕ) × IsNumbered m s'
  step-IsNumbered n (create a bumps args s h) valid =
      (suc n, Created-IsNumbered n a args valid (create_coupon-Created rt mint a bumps args s h))
  step-IsNumbered n (set_rate a s id c rate decimals {c'} at h) valid = (
    n,
    record {
      coupons_counted = valid.coupons_counted;
      snapshots_counted = valid.snapshots_counted;
      roots = valid.roots;
      coupons =
          written-slots (CouponSlot n) s.coupon id (loaded c')
            (rated-CouponSlot n id a c rate decimals h
              (subst (CouponSlot n id) at (valid.coupons id)))
            (λ k _. valid.coupons k);
    },
  )
  step-IsNumbered n (snapshot_by caller bumps merkle_root s other h) valid = absurd (
      other (sym (take_snapshot-Taken rt mint caller bumps merkle_root s.snapshots h).by_authority))

  steps-IsNumbered :
      (n : ℕ) {s s' : Coupons} → Steps rt mint s s' → IsNumbered n s → (m : ℕ) × IsNumbered m s'
  steps-IsNumbered n stay valid = (n, valid)
  steps-IsNumbered n (more step rest) valid =
      let (m, next) = step-IsNumbered n step valid in steps-IsNumbered m rest next

  -- After any history of a mint, from none, its coupons are numbered from 1 to some n without a gap, and
  -- its snapshots from 0 to n - 1; coupon k is on snapshot k - 1, ends after it starts, is paid after it
  -- ends, and has a rate of its own with its decimals or neither; both counters count n.
  pub Steps-IsNumbered : {s : Coupons} → Steps rt mint start s → (n : ℕ) × IsNumbered n s
  Steps-IsNumbered history = steps-IsNumbered 0 history start-IsNumbered
