-- ===== src/Coupon/History/Kept.antt =====
-- What is written once: the terms of a coupon, but for its rate, and the root of a snapshot.
use asseto_solana_programs.Prelude.{
  ℕ, ◌≡◌, ◌≢◌, refl, ap, sym, ◌∙◌, inl, inr, true, Option, arith, ◌==◌, update, update_self,
  update_ne, Bool-cases, ==_iff,
}
use asseto_solana_programs.Common.ProgramIds.{Pubkey}
use asseto_solana_programs.Common.PdaSeeds.{Runtime}
use asseto_solana_programs.Common.State.{AccountInfo, loaded, data_is_empty}
use asseto_solana_programs.Snapshot.{SnapshotMerkleRoot}
use asseto_solana_programs.Coupon.{Coupon, Coupons}
use asseto_solana_programs.Coupon.History.{
  Step, create, set_rate, snapshot_by, Steps, stay, more, take_snapshot-Taken,
}
use asseto_solana_programs.Coupon.History.Created.{create_coupon-Created}
use asseto_solana_programs.Coupon.History.Invariant.{rated}

abbrev pub SameTerms : Coupon → Coupon → Type 0
SameTerms c c' =
    (c'.snapshot_id ≡ c.snapshot_id)
    × (c'.period_start_date ≡ c.period_start_date)
    × (c'.period_end_date ≡ c.period_end_date)
    × (c'.payment_date ≡ c.payment_date)

abbrev pub KeepsCoupon : Coupon → AccountInfo Coupon → Type 0
KeepsCoupon c pda = (c' : Coupon) × (pda ≡ loaded c') × SameTerms c c'

abbrev pub same : (c : Coupon) → SameTerms c c
same c = (refl, refl, refl, refl)

pub chain : (c d e : Coupon) → SameTerms c d → SameTerms d e → SameTerms c e
chain c d e (p, q, r, s) (p', q', r', s') = (p' ∙ p, q' ∙ q, r' ∙ r, s' ∙ s)

taken_apart :
    {V : Type 0} (f : ℕ → AccountInfo V) (k key : ℕ) (v : V)
    → f k ≡ loaded v
    → data_is_empty (f key) ≡ true
    → k ≢ key
taken_apart f k key v here free e = ground (arith, ap f e, here, free)

written_elsewhere :
    {V : Type 0} (f : ℕ → AccountInfo V) (k key : ℕ) (v w : V)
    → f k ≡ loaded v
    → data_is_empty (f key) ≡ true
    → update f key (loaded w) k ≡ loaded v
written_elsewhere f k key v w here free =
    update_ne f key k (loaded w) (taken_apart f k key v here free) ∙ here

coupon_inj : {c d : Coupon} → loaded d ≡ loaded c → d ≡ c
coupon_inj h = cc

-- A rate that is set on a coupon changes no other term.
rated_terms :
    (c d c' : Coupon) (rate decimals : Option ℕ)
    → loaded d ≡ loaded c
    → c' ≡ record d { interest_rate_override = rate; interest_rate_override_decimals = decimals }
    → SameTerms c c'
rated_terms c d c' rate decimals e terms =
    let d_is_c = coupon_inj e in
    (
      ap (λ x. x.snapshot_id) terms ∙ ap (λ x. x.snapshot_id) d_is_c,
      ap (λ x. x.period_start_date) terms ∙ ap (λ x. x.period_start_date) d_is_c,
      ap (λ x. x.period_end_date) terms ∙ ap (λ x. x.period_end_date) d_is_c,
      ap (λ x. x.payment_date) terms ∙ ap (λ x. x.payment_date) d_is_c,
    )

module _ (rt : Runtime) (mint : Pubkey) where
  pub step-KeepsCoupon :
      {s s' : Coupons} (k : ℕ) (c : Coupon)
      → Step rt mint s s'
      → s.coupon k ≡ loaded c
      → KeepsCoupon c (s'.coupon k)
  step-KeepsCoupon k c (create a bumps args s h) here =
      let new = create_coupon-Created rt mint a bumps args s h in
      (
        c,
        ap (λ f. f k) new.stored
            ∙ written_elsewhere s.coupon k args.coupon_id c new.c here new.fresh,
        same c,
      )
  step-KeepsCoupon k c (set_rate a s id d rate decimals {c'} at h) here =
      elim (Bool-cases (id == k)) [
        | inl hit ↦
            let e : id ≡ k = (==_iff id k).0 hit in
            let d_is_c : loaded d ≡ loaded c = sym at ∙ ap s.coupon e ∙ here in
            let terms = (rated a d rate decimals h).1 in
            (
              c',
              ap (update s.coupon id (loaded c')) (sym e) ∙ update_self s.coupon id (loaded c'),
              rated_terms c d c' rate decimals d_is_c terms,
            )
        | inr miss ↦
            (c, update_ne s.coupon id k (loaded c') (λ e. ground (arith, miss, e)) ∙ here, same c)
      ]
  step-KeepsCoupon k c (snapshot_by caller bumps merkle_root s other h) here = (c, here, same c)

  pub step_keeps_root :
      {s s' : Coupons} (k : ℕ) (r : SnapshotMerkleRoot)
      → Step rt mint s s'
      → s.snapshots.snapshot_merkle_root k ≡ loaded r
      → s'.snapshots.snapshot_merkle_root k ≡ loaded r
  step_keeps_root k r (create a bumps args s h) here =
      let new = (create_coupon-Created rt mint a bumps args s h).taken in
      ap (λ f. f k) new.written
      ∙ written_elsewhere s.snapshots.snapshot_merkle_root k new.counter.count r _ here new.fresh
  step_keeps_root k r (set_rate a s id d rate decimals at h) here = here
  step_keeps_root k r (snapshot_by caller bumps merkle_root s other h) here = absurd (
      other (sym (take_snapshot-Taken rt mint caller bumps merkle_root s.snapshots h).by_authority))

  steps-KeepsCoupon :
      {s s' : Coupons} (k : ℕ) (c : Coupon)
      → Steps rt mint s s'
      → s.coupon k ≡ loaded c
      → KeepsCoupon c (s'.coupon k)
  steps-KeepsCoupon k c stay here = (c, here, same c)
  steps-KeepsCoupon k c (more step rest) here =
      let (d, at, terms) = step-KeepsCoupon k c step here in
      let (e, later, terms') = steps-KeepsCoupon k d rest at in (e, later, chain c d e terms terms')

  steps_keep_root :
      {s s' : Coupons} (k : ℕ) (r : SnapshotMerkleRoot)
      → Steps rt mint s s'
      → s.snapshots.snapshot_merkle_root k ≡ loaded r
      → s'.snapshots.snapshot_merkle_root k ≡ loaded r
  steps_keep_root k r stay here = here
  steps_keep_root k r (more step rest) here =
      steps_keep_root k r rest (step_keeps_root k r step here)

  -- A coupon, and the root of the snapshot that it is paid on, are there for good: no later transaction
  -- removes them or changes the snapshot, the dates or the root.
  pub Steps-Keeps :
      {s s' : Coupons} (k : ℕ) (c : Coupon) (r : SnapshotMerkleRoot)
      → Steps rt mint s s'
      → s.coupon k ≡ loaded c
      → s.snapshots.snapshot_merkle_root c.snapshot_id ≡ loaded r
      → KeepsCoupon c (s'.coupon k) × (s'.snapshots.snapshot_merkle_root c.snapshot_id ≡ loaded r)
  Steps-Keeps k c r history here root =
      (steps-KeepsCoupon k c history here, steps_keep_root c.snapshot_id r history root)
