-- ===== src/Treasury/Tests.antt =====
-- A yearly coupon of 5 percent on ten bonds of 1000, paid in a token of six decimals.
use asseto_solana_programs.Prelude.{
  arith, ℕ, ◌+◌, ◌*◌, ◌<◌, ◌≡◌, refl, none, some, [], ◌∷◌, ◌++◌, Bytes, le_bytes, u64_mod, update,
}
use asseto_solana_programs.Prelude.Int.{pos}
use asseto_solana_programs.Errors.{ok}
use asseto_solana_programs.Common.Bitmask.{locate, is_set}
use asseto_solana_programs.Common.PdaSeeds.{treasury_authority_seeds, as_ref}
use asseto_solana_programs.Common.State.{empty, loaded}
use asseto_solana_programs.Common.Guards.{
  require_role, require_not_paused, require_active, require_functionality, is_functionality_enabled,
  require_authorized,
}
use asseto_solana_programs.Common.Roles.{role_treasurer}
use asseto_solana_programs.Common.Functionalities.{treasury_set_payment_token}
use asseto_solana_programs.Common.Merkle.{
  leaf_hash, bytes_eq, fold_proof, verify_balance_proof, require_balance_proof,
}
use asseto_solana_programs.Common.Examples.{runtime, asset_accounts, token_program, Book}
use asseto_solana_programs.Bond.{BondTerms, actual365}
use asseto_solana_programs.Coupon.{Coupon}
use asseto_solana_programs.Treasury.{
  TreasuryConfig, PayCoupon, effective_interest_rate, mul_u128, pow10_u128, to_u64, elapsed_seconds,
  scaled, payout, set_payment_token, pay_coupon,
}
use asseto_solana_programs.Treasury.Payout.{exact_payout, payout_exact, payout_succeeds}
use asseto_solana_programs.Treasury.History.{Bond, Steps, stay, more, by_payment, IsSound}
use asseto_solana_programs.Treasury.History.Sound.{Steps-IsSound}
use asseto_solana_programs.Treasury.Lock.{set_payment_token-pay_coupon}

abbrev bond : BondTerms
bond = record {
  bump = 1;
  interest_rate = 5;
  interest_rate_decimals = 2;
  par_value = 1000;
  par_value_decimals = 0;
  minimum_denomination = 1;
  issuance_date = pos 0;
  day_count_convention = actual365;
}

abbrev coupon : Coupon
coupon = record {
  bump = 2;
  snapshot_id = 0;
  period_start_date = pos 0;
  period_end_date = pos 31536000;
  payment_date = pos 31536001;
  interest_rate_override = none;
  interest_rate_override_decimals = none;
}

yearly : payout bond coupon 0 6 10 ≡ ok 500000000
unfolding payout elapsed_seconds effective_interest_rate mul_u128 pow10_u128 to_u64 scaled
yearly = refl

payout_exact_example :
    (elapsed : ℕ) × (elapsed_seconds coupon ≡ ok elapsed)
    × (500000000 ≡ exact_payout bond coupon 0 6 10 elapsed)
    × (500000000 < u64_mod)
payout_exact_example = payout_exact bond coupon 0 6 10 yearly

abbrev config : ℕ → ℕ → TreasuryConfig
config payment_mint locked = record {
  bump = 3;
  payment_mint = payment_mint;
  payment_mint_decimals = 6;
  locked_for_coupon_id = locked;
}

abbrev byte_total : Bytes → ℕ
byte_total [] = 0
byte_total (b ∷ bs) = b + 3 * byte_total bs

abbrev toy_digest : Bytes → Bytes
toy_digest x = le_bytes 32 (byte_total x)

-- Coupon 2 has been paid to someone; coupon 1 is paid to account 20.
abbrev payment : PayCoupon
payment = record {
  mint = 7;
  mint_decimals = 0;
  treasury_config = config 40 2;
  treasury_token_account = 50;
  holder_payment_account = 51;
  bond_terms = bond;
  coupon = coupon;
  merkle_root = toy_digest (as_ref 20 ++ le_bytes 8 10);
  coupon_paid = empty;
  bump_of_coupon_paid = 4;
}

abbrev treasury_book : Book
treasury_book = record { supply = 900000000; balance = update (λ k. 0) 50 900000000 }

abbrev paid_book : Book
paid_book = record {
  supply = 900000000;
  balance = update (update treasury_book.balance 50 400000000) 51 500000000;
}

-- The payment of the older coupon moves the lock back from 2 to 1.
paid :
    pay_coupon runtime token_program toy_digest
      (pos 31536001)
      asset_accounts
      payment
      1
      20
      10
      []
      treasury_book
    ≡ ok (config 40 1, record { bump = 4; amount = 500000000 }, paid_book)
unfolding pay_coupon payout elapsed_seconds effective_interest_rate mul_u128 pow10_u128 to_u64
    scaled treasury_authority_seeds as_ref require_balance_proof verify_balance_proof fold_proof
    leaf_hash bytes_eq require_authorized require_role require_not_paused require_active
    require_functionality is_functionality_enabled is_set locate
paid = refl

treasurer : require_authorized asset_accounts role_treasurer treasury_set_payment_token ≡ ok tt
unfolding require_authorized require_role require_not_paused require_active require_functionality
    is_functionality_enabled is_set locate
treasurer = refl

-- Coupon 2 is the newest, and the token was locked for it; the payment of coupon 1 frees it.
set_payment_token-pay_coupon_example :
    set_payment_token asset_accounts 3 (loaded (config 40 1)) (some 2) 41 6 ≡ ok (config 41 1)
set_payment_token-pay_coupon_example =
    set_payment_token-pay_coupon runtime token_program toy_digest (pos 31536001) asset_accounts
      payment 1 20 10 [] treasury_book asset_accounts 3 2 41 6 paid treasurer

year : elapsed_seconds coupon ≡ ok 31536000
unfolding elapsed_seconds
year = refl

payout_succeeds_example : payout bond coupon 0 6 10 ≡ ok 500000000
unfolding effective_interest_rate
payout_succeeds_example =
    payout_succeeds bond coupon 0 6 10 31536000 year
      (omega arith, omega arith, omega arith, omega arith, omega arith, omega arith, omega arith)
      (omega arith)

abbrev bond_before : Bond runtime token_program toy_digest 7
bond_before = record {
  bond_terms = loaded bond;
  coupons = record {
    coupon_counter = loaded (record { bump = 1; count = 2 });
    coupon = update (λ k. empty) 1 (loaded coupon);
    snapshots = record {
      snapshot_counter = loaded (record { bump = 3; count = 1 });
      snapshot_merkle_root =
          update (λ k. empty) 0 (loaded (record { bump = 5; merkle_root = payment.merkle_root }));
    };
  };
  treasury_config = loaded (config 40 2);
  coupon_paid = λ id account. empty;
  ledger = treasury_book;
  payments = [];
}

abbrev bond_after : Bond runtime token_program toy_digest 7
bond_after = record bond_before {
  treasury_config = loaded (config 40 1);
  coupon_paid =
      update bond_before.coupon_paid 1
        (update (bond_before.coupon_paid 1) 20 (loaded (record { bump = 4; amount = 500000000 })));
  ledger = paid_book;
  payments =
      record {
        request = payment;
        coupon_id = 1;
        account = 20;
        balance = 10;
        proof = [];
        marker = record { bump = 4; amount = 500000000 };
        before = treasury_book;
        after = paid_book;
      }
      ∷ [];
}

one_payment : Steps runtime token_program toy_digest 7 bond_before bond_after
one_payment =
    more
      (by_payment (pos 31536001) asset_accounts bond_before payment
        (record { bump = 5; merkle_root = payment.merkle_root }) 1 20 10 [] refl refl refl refl refl
        refl refl paid)
      stay

Steps-IsSound_example : IsSound runtime token_program toy_digest 7 bond_after
Steps-IsSound_example =
    Steps-IsSound runtime token_program toy_digest 7 refl (λ k j. refl) one_payment
