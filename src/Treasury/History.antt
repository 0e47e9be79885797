-- ===== src/Treasury/History.antt =====
-- The payments of a bond together with its terms, coupons and snapshots.
pub mod Sound
use asseto_solana_programs.Prelude.{
  ℕ, ⊤, ◌≡◌, refl, ap, sym, subst, ◌∙◌, inl, inr, Bool, true, false, ◌&&◌, if◌then◌else◌, Option,
  none, some, List, [], ◌∷◌, Bytes, arith, ◌==◌, update, Bool-cases,
}
use asseto_solana_programs.Prelude.Int.{ℤ}
use asseto_solana_programs.Errors.{ok}
use asseto_solana_programs.Common.ProgramIds.{Pubkey, treasury_program_id}
use asseto_solana_programs.Common.PdaSeeds.{Runtime, treasury_authority_seeds}
use asseto_solana_programs.Common.State.{AccountInfo, empty, loaded, unreadable, data_is_empty}
use asseto_solana_programs.Common.Guards.{AssetAccounts}
use asseto_solana_programs.Common.Merkle.{verify_balance_proof}
use asseto_solana_programs.Common.Token.{TokenProgram}
use asseto_solana_programs.Snapshot.{SnapshotMerkleRoot}
use asseto_solana_programs.Bond.{BondTerms, BondTermsArgs, update_bond_terms}
use asseto_solana_programs.Coupon.{CouponCounter, Coupon, Coupons}
use asseto_solana_programs.Coupon.History
use asseto_solana_programs.Coupon.History.Kept.{
  SameTerms, same, chain, step-KeepsCoupon, step_keeps_root,
}
use asseto_solana_programs.Treasury.{
  TreasuryConfig, CouponPaidMarker, PayCoupon, payout, set_payment_token, pay_coupon,
}
use asseto_solana_programs.Treasury.Guard.{pay_coupon_lem}

-- What set_payment_token reads at bytes 9 to 16 of the counter account. Only the coupon program writes
-- there, so an account that has data is a counter.
abbrev pub current_count : AccountInfo CouponCounter → Option ℕ
current_count empty = none
current_count (loaded c) = some c.count
current_count (unreadable _) = none

abbrev pub Each : {A : Type 0} → (A → Type 0) → List A → Type 0
Each P [] = ⊤
Each P (x ∷ xs) = P x × Each P xs

module _ (rt : Runtime) (tp : TokenProgram) (keccak : Bytes → Bytes) (mint : Pubkey) where
  open tp use {Ledger}

  -- A call of pay_coupon that succeeded: its arguments, the marker it wrote, and the ledger before and
  -- after it.
  pub record Payment : Type 0 where
    pub request : PayCoupon
    pub coupon_id : ℕ
    pub account : Pubkey
    pub balance : ℕ
    pub proof : List Bytes
    pub marker : CouponPaidMarker
    pub before : Ledger
    pub after : Ledger

  -- The markers stand by coupon and account, as their seeds have it. `payments` is a log that no program
  -- keeps, the newest first.
  pub record Bond : Type 0 where
    pub bond_terms : AccountInfo BondTerms
    pub coupons : Coupons
    pub treasury_config : AccountInfo TreasuryConfig
    pub coupon_paid : ℕ → Pubkey → AccountInfo CouponPaidMarker
    pub ledger : Ledger
    pub payments : List Payment

  pub data Step : Bond → Bond → Type 0 where
    by_terms :
        (a : AssetAccounts) (bump : ℕ) (w : Bond) (args : BondTermsArgs) {terms : BondTerms}
        → update_bond_terms a bump w.bond_terms args ≡ ok terms
        → Step w (record w { bond_terms = loaded terms })
    by_coupons :
        (w : Bond) {s : Coupons}
        → History.Step rt mint w.coupons s
        → Step w (record w { coupons = s })
    by_payment :
        (now : ℤ) (a : AssetAccounts) (w : Bond) (p : PayCoupon) (r : SnapshotMerkleRoot)
        (coupon_id : ℕ) (account : Pubkey) (balance : ℕ) (proof : List Bytes)
        {config' : TreasuryConfig} {marker : CouponPaidMarker} {ledger' : Ledger}
        → p.mint ≡ mint
        → w.bond_terms ≡ loaded p.bond_terms
        → w.treasury_config ≡ loaded p.treasury_config
        → w.coupons.coupon coupon_id ≡ loaded p.coupon
        → w.coupons.snapshots.snapshot_merkle_root p.coupon.snapshot_id ≡ loaded r
        → p.merkle_root ≡ r.merkle_root
        → p.coupon_paid ≡ w.coupon_paid coupon_id account
        → pay_coupon rt tp keccak now a p coupon_id account balance proof w.ledger
          ≡ ok (config', marker, ledger')
        → Step w (record w {
          treasury_config = loaded config';
          coupon_paid =
              update w.coupon_paid coupon_id
                (update (w.coupon_paid coupon_id) account (loaded marker));
          ledger = ledger';
          payments =
              record {
                request = p;
                coupon_id = coupon_id;
                account = account;
                balance = balance;
                proof = proof;
                marker = marker;
                before = w.ledger;
                after = ledger';
              }
              ∷ w.payments;
        })
    by_token :
        (a : AssetAccounts) (bump : ℕ) (w : Bond) (payment_mint : Pubkey) (decimals : ℕ)
        {config' : TreasuryConfig}
        → set_payment_token a bump w.treasury_config
            (current_count w.coupons.coupon_counter)
            payment_mint
            decimals
          ≡ ok config'
        → Step w (record w { treasury_config = loaded config' })
    -- other transactions with the payment token
    elsewhere : (w : Bond) (ledger' : Ledger) → Step w (record w { ledger = ledger' })

  pub data Steps : Bond → Bond → Type 0 where
    stay : {w : Bond} → Steps w w
    more : {w w' w'' : Bond} → Step w w' → Steps w' w'' → Steps w w''

  -- The amount is the payout on the balance under the terms of the bond and the coupon at the time, and
  -- Token-2022 transferred it.
  abbrev pub IsPaid : Payment → Type 0
  IsPaid x =
      let p = x.request in
      (payout p.bond_terms p.coupon p.mint_decimals p.treasury_config.payment_mint_decimals
          x.balance
        ≡ ok x.marker.amount)
      × (tp.transfer_checked p.treasury_token_account p.treasury_config.payment_mint
            p.holder_payment_account
            (rt.find_program_address (treasury_authority_seeds p.mint) treasury_program_id).0
            x.marker.amount p.treasury_config.payment_mint_decimals x.before
          ≡ ok x.after)

  -- The balance is one that the root of the coupon's snapshot proves; the coupon has the snapshot and the
  -- dates that it was paid with.
  abbrev pub IsProven : Coupons → Payment → Type 0
  IsProven s x =
      (c : Coupon) × (r : SnapshotMerkleRoot) × (s.coupon x.coupon_id ≡ loaded c)
      × SameTerms x.request.coupon c
      × (s.snapshots.snapshot_merkle_root c.snapshot_id ≡ loaded r)
      × (verify_balance_proof keccak x.proof r.merkle_root x.account x.balance ≡ true)

  abbrev pub is_for : ℕ → Pubkey → Payment → Bool
  is_for coupon_id account x = (x.coupon_id == coupon_id) && (x.account == account)

  -- No two payments are of one coupon to one account.
  abbrev pub IsOnce : List Payment → Type 0
  IsOnce [] = ⊤
  IsOnce (x ∷ xs) = Each (λ y. is_for x.coupon_id x.account y ≡ false) xs × IsOnce xs

  -- The markers that the payments of a log leave.
  abbrev pub markers : List Payment → ℕ → Pubkey → AccountInfo CouponPaidMarker
  markers [] k j = empty
  markers (x ∷ xs) k j = if is_for k j x then loaded x.marker else markers xs k j

  pub record IsSound (w : Bond) : Type 0 where
    pub paid : Each IsPaid w.payments
    pub proven : Each (IsProven w.coupons) w.payments
    pub once : IsOnce w.payments
    pub marked : (k : ℕ) (j : Pubkey) → w.coupon_paid k j ≡ markers w.payments k j
