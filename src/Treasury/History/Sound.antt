-- ===== src/Treasury/History/Sound.antt =====
-- What every history of a bond leaves of its payments.
use asseto_solana_programs.Prelude.{
  ℕ, ◌≡◌, refl, ap, sym, subst, ◌∙◌, inl, inr, true, false, ◌&&◌, if◌then◌else◌, ==_iff, List, [],
  ◌∷◌, Bytes, ◌==◌, update, Bool-cases,
}
use asseto_solana_programs.Common.ProgramIds.{Pubkey}
use asseto_solana_programs.Common.PdaSeeds.{Runtime}
use asseto_solana_programs.Common.State.{AccountInfo, empty, loaded, data_is_empty}
use asseto_solana_programs.Common.Merkle.{verify_balance_proof}
use asseto_solana_programs.Common.Token.{TokenProgram}
use asseto_solana_programs.Coupon.{Coupons}
use asseto_solana_programs.Coupon.History
use asseto_solana_programs.Coupon.History.Kept.{same, chain, step-KeepsCoupon, step_keeps_root}
use asseto_solana_programs.Treasury.{CouponPaidMarker}
use asseto_solana_programs.Treasury.Guard.{pay_coupon_lem}
use asseto_solana_programs.Treasury.History.{
  Each, Payment, Bond, Step, by_terms, by_coupons, by_payment, by_token, elsewhere, Steps, stay,
  more, IsPaid, IsProven, is_for, IsOnce, markers, IsSound,
}

each_map :
    {A : Type 0} {P Q : A → Type 0} → ((x : A) → P x → Q x) → (xs : List A) → Each P xs → Each Q xs
each_map f [] e = tt
each_map f (x ∷ xs) (p, e) = (f x p, each_map f xs e)

-- The written entry of a map of maps, and the others.
update_both :
    (f : ℕ → Pubkey → AccountInfo CouponPaidMarker) (id : ℕ) (account : Pubkey)
    (v : AccountInfo CouponPaidMarker) (k : ℕ) (j : Pubkey)
    → update f id (update (f id) account v) k j ≡ (if (id == k) && (account == j) then v else f k j)
update_both f id account v k j = elim (Bool-cases (id == k)) [
  | inl h ↦ elim (Bool-cases (account == j)) [
    | inl h' ↦ rw (h, h') refl
    | inr h' ↦ rw (h, h') (ap (λ n. f n j) ((==_iff id k).0 h))
  ]
  | inr h ↦ rw h refl
]

not_empty : (m : CouponPaidMarker) → data_is_empty (loaded m) ≡ true → ⊥
not_empty m h = cc

module _ (rt : Runtime) (tp : TokenProgram) (keccak : Bytes → Bytes) (mint : Pubkey) where
  step-IsProven :
      {s s' : Coupons}
      → History.Step rt mint s s'
      → (x : Payment rt tp keccak mint) → IsProven rt tp keccak mint s x
      → IsProven rt tp keccak mint s' x
  step-IsProven {s} {s'} step x (c, r, here, terms, root, proved) =
      let (c', there, kept) = step-KeepsCoupon rt mint x.coupon_id c step here in
      (
        c',
        r,
        there,
        chain x.request.coupon c c' terms kept,
        ap s'.snapshots.snapshot_merkle_root kept.0
            ∙ step_keeps_root rt mint c.snapshot_id r step root,
        proved,
      )

  -- Where no marker is, no payment of the log was made.
  unmarked :
      (xs : List (Payment rt tp keccak mint)) (k : ℕ) (j : Pubkey)
      → data_is_empty (markers rt tp keccak mint xs k j) ≡ true
      → Each (λ y. is_for rt tp keccak mint k j y ≡ false) xs
  unmarked [] k j h = tt
  unmarked (x ∷ xs) k j h = elim (Bool-cases (is_for rt tp keccak mint k j x)) [
    | inl hit ↦ absurd (not_empty x.marker (rw hit at h))
    | inr miss ↦ (miss, unmarked xs k j (rw miss at h))
  ]

  step-IsSound :
      {w w' : Bond rt tp keccak mint}
      → Step rt tp keccak mint w w'
      → IsSound rt tp keccak mint w
      → IsSound rt tp keccak mint w'
  step-IsSound (by_terms a bump w args h) sound = record {
    paid = sound.paid;
    proven = sound.proven;
    once = sound.once;
    marked = sound.marked;
  }
  step-IsSound (by_coupons w step) sound = record {
    paid = sound.paid;
    proven = each_map (step-IsProven step) w.payments sound.proven;
    once = sound.once;
    marked = sound.marked;
  }
  step-IsSound (by_token a bump w payment_mint decimals h) sound = record {
    paid = sound.paid;
    proven = sound.proven;
    once = sound.once;
    marked = sound.marked;
  }
  step-IsSound (elsewhere w ledger') sound = record {
    paid = sound.paid;
    proven = sound.proven;
    once = sound.once;
    marked = sound.marked;
  }
  step-IsSound
        (by_payment now a w p r id account balance proof {marker = m} mine terms cfg coupon root
          same_root at h)
        sound =
      let (fresh, _, _, proved, due, sent, _) =
        pay_coupon_lem rt tp keccak now a p id account balance proof w.ledger h in
      record {
        paid = ((due, sent), sound.paid);
        proven = (
          (
            p.coupon,
            r,
            coupon,
            same p.coupon,
            root,
            subst (λ x. verify_balance_proof keccak proof x account balance ≡ true) same_root
                proved,
          ),
          sound.proven,
        );
        once = (
          unmarked w.payments id account
              (subst (λ x. data_is_empty x ≡ true) (at ∙ sound.marked id account) fresh),
          sound.once,
        );
        marked = λ k j.
            update_both w.coupon_paid id account (loaded m) k j
            ∙ ap (λ x. if (id == k) && (account == j) then loaded m else x) (sound.marked k j);
      }

  start-IsSound :
      (w : Bond rt tp keccak mint)
      → w.payments ≡ []
      → ((k : ℕ) (j : Pubkey) → w.coupon_paid k j ≡ empty)
      → IsSound rt tp keccak mint w
  start-IsSound w none unpaid = record {
    paid = subst (Each (IsPaid rt tp keccak mint)) (sym none) tt;
    proven = subst (Each (IsProven rt tp keccak mint w.coupons)) (sym none) tt;
    once = subst (IsOnce rt tp keccak mint) (sym none) tt;
    marked = λ k j. unpaid k j ∙ ap (λ xs. markers rt tp keccak mint xs k j) (sym none);
  }

  steps-IsSound :
      {w w' : Bond rt tp keccak mint}
      → Steps rt tp keccak mint w w'
      → IsSound rt tp keccak mint w
      → IsSound rt tp keccak mint w'
  steps-IsSound stay sound = sound
  steps-IsSound (more step rest) sound = steps-IsSound rest (step-IsSound step sound)

  -- From a bond on which nothing has been paid, every history of its terms, coupons, snapshots, payment
  -- token and payments leads to one in which each payment made was on a balance that the root of the
  -- coupon's own snapshot, still there unchanged, proves; its amount, which the payment's marker records,
  -- is the payout on that balance under the terms of the bond and of the coupon at the time, and was
  -- transferred; no two payments are of one coupon to one account; and the markers are those of the
  -- payments.
  pub Steps-IsSound :
      {w w' : Bond rt tp keccak mint}
      → w.payments ≡ []
      → ((k : ℕ) (j : Pubkey) → w.coupon_paid k j ≡ empty)
      → Steps rt tp keccak mint w w'
      → IsSound rt tp keccak mint w'
  Steps-IsSound {w} none unpaid history = steps-IsSound history (start-IsSound w none unpaid)
