-- ===== src/Freeze/BatchLaws.antt =====
-- What a batch does to the accounts that it lists, and to the others.
use asseto_solana_programs.Prelude.{
  ℕ, ⊤, ◌≡◌, refl, sym, ◌∙◌, Bool, true, false, ◌||◌, ◌&&◌, List, [], ◌∷◌, arith, ◌==◌, update,
}
use asseto_solana_programs.Errors.{ok, >>=-eq-ok, >>-eq-ok}
use asseto_solana_programs.Common.ProgramIds.{Pubkey}
use asseto_solana_programs.Common.PdaSeeds.{Runtime}
use asseto_solana_programs.Common.State.{AccountInfo, empty, loaded, unreadable}
use asseto_solana_programs.Common.Guards.{AssetAccounts}
use asseto_solana_programs.Freeze.{FreezeState}
use asseto_solana_programs.Freeze.Batch.{
  States, expected_pda, freeze_entry, for_pairs, batch_freeze_account, require_pairs,
}

abbrev pub is_fully_frozen : AccountInfo FreezeState → Bool
is_fully_frozen (loaded s) = s.fully_frozen
is_fully_frozen _ = false

abbrev pub locked_balance : AccountInfo FreezeState → ℕ
locked_balance (loaded s) = s.frozen_balance
locked_balance _ = 0

-- Whether an address is listed as the freeze state of some pair.
abbrev pub lists : Pubkey → List Pubkey → Bool
lists k [] = false
lists k (_ ∷ []) = false
lists k (account ∷ pda ∷ remaining) = (pda == k) || lists k remaining

-- Every pair names the canonical freeze state of its account.
abbrev pub AllCanonical : Runtime → Pubkey → List Pubkey → Type 0
AllCanonical rt mint [] = ⊤
AllCanonical rt mint (_ ∷ []) = ⊤
AllCanonical rt mint (account ∷ pda ∷ remaining) =
    (pda ≡ (expected_pda rt mint account).0) × AllCanonical rt mint remaining

or_regroup : (p l s : Bool) → (l || ((p || false) || s)) ≡ ((p || l) || s)
or_regroup true true s = refl
or_regroup true false s = refl
or_regroup false true s = refl
or_regroup false false s = refl

either_fresh :
    (p l s m : Bool)
    → ((p || false) ≡ true → s ≡ false)
    → (l ≡ true → m ≡ false)
    → m ≡ ((p || false) || s)
    → (p || l) ≡ true
    → s ≡ false
either_fresh true l s m u u' f h = u refl
either_fresh false true s m u u' f h = sym f ∙ u' refl
either_fresh false false s m u u' f h = cc

module _ (rt : Runtime) (mint : Pubkey) where
  freeze_entry_at :
      (account pda : Pubkey) (states : States) (now : AccountInfo FreezeState) {states' : States}
      → states pda ≡ now
      → freeze_entry rt mint account pda states ≡ ok states'
      → (s : FreezeState) × (s.fully_frozen ≡ true)
        × (s.frozen_balance ≡ locked_balance (states pda))
        × (is_fully_frozen (states pda) ≡ false)
        × (states' ≡ update states pda (loaded s))
  unfolding freeze_entry
  freeze_entry_at account pda states empty e h = (
    record { fully_frozen = true; frozen_balance = 0; bump = (expected_pda rt mint account).1 },
    refl,
    ground arith,
    ground arith,
    ground arith,
  )
  freeze_entry_at account pda states (loaded s) e h =
      (record s { fully_frozen = true }, refl, ground arith, ground arith, ground arith)
  freeze_entry_at account pda states (unreadable x) e h = absurd (ground arith)

  -- One entry: it names the canonical address of an account that is not frozen.
  freeze_entry_ok :
      (account pda : Pubkey) (states : States) {states' : States}
      → freeze_entry rt mint account pda states ≡ ok states'
      → (pda ≡ (expected_pda rt mint account).0)
        × ((s : FreezeState) × (s.fully_frozen ≡ true)
            × (s.frozen_balance ≡ locked_balance (states pda))
            × (is_fully_frozen (states pda) ≡ false)
            × (states' ≡ update states pda (loaded s)))
  unfolding freeze_entry
  freeze_entry_ok account pda states h =
      (ground arith, freeze_entry_at account pda states (states pda) refl h)

  abbrev FrozenBy : List Pubkey → States → States → Pubkey → Type 0
  FrozenBy remaining states states' k =
      (is_fully_frozen (states' k) ≡ (lists k remaining || is_fully_frozen (states k)))
      × (locked_balance (states' k) ≡ locked_balance (states k))
      × (lists k remaining ≡ true → is_fully_frozen (states k) ≡ false)

  freeze_entry-FrozenBy :
      (account pda : Pubkey) (states : States) {states' : States}
      → freeze_entry rt mint account pda states ≡ ok states'
      → (k : Pubkey) → FrozenBy (account ∷ pda ∷ []) states states' k
  freeze_entry-FrozenBy account pda states h k =
      let (s, frozen, kept, before, e) = (freeze_entry_ok account pda states h).1 in
      rw e (ground arith)

  FrozenBy-trans :
      (account pda : Pubkey) (remaining : List Pubkey) (states mid states' : States) (k : Pubkey)
      → FrozenBy (account ∷ pda ∷ []) states mid k
      → FrozenBy remaining mid states' k
      → FrozenBy (account ∷ pda ∷ remaining) states states' k
  FrozenBy-trans account pda remaining states mid states' k (f, b, u) (f', b', u') = (
    f' ∙ rw f (or_regroup (pda == k) (lists k remaining) (is_fully_frozen (states k))),
    b' ∙ b,
    either_fresh (pda == k) (lists k remaining) _ _ u u' f,
  )

  for_pairs-FrozenBy :
      (remaining : List Pubkey) (states : States) {states' : States}
      → for_pairs rt mint (freeze_entry rt mint) remaining states ≡ ok states'
      → AllCanonical rt mint remaining × ((k : Pubkey) → FrozenBy remaining states states' k)
  unfolding for_pairs
  for_pairs-FrozenBy [] states h = (tt, λ k. ground arith)
  for_pairs-FrozenBy (_ ∷ []) states h = (tt, λ k. ground arith)
  for_pairs-FrozenBy (account ∷ pda ∷ remaining) states {states'} h =
      let (mid, first, rest) = >>=-eq-ok (freeze_entry rt mint account pda states) _ h in
      let (canonical, frozen) = for_pairs-FrozenBy remaining mid {states' = states'} rest in
      (
        ((freeze_entry_ok account pda states first).0, canonical),
        λ k.
            FrozenBy-trans account pda remaining states mid states' k
              (freeze_entry-FrozenBy account pda states first k) (frozen k),
      )

  never_both : (l s : Bool) → (l ≡ true → s ≡ false) → (l && s) ≡ false
  never_both true s f = f refl
  never_both false s f = refl

  -- A batch that succeeds names the canonical freeze state of each of its accounts, freezes exactly
  -- those, none of which was frozen, and keeps every locked balance.
  pub batch_freeze_account_freezes :
      (a : AssetAccounts) (remaining : List Pubkey) (states : States) (k : Pubkey)
      {states' : States}
      → batch_freeze_account rt mint a remaining states ≡ ok states'
      → AllCanonical rt mint remaining
        × (is_fully_frozen (states' k) ≡ (lists k remaining || is_fully_frozen (states k)))
        × (locked_balance (states' k) ≡ locked_balance (states k))
        × ((lists k remaining && is_fully_frozen (states k)) ≡ false)
  unfolding batch_freeze_account
  batch_freeze_account_freezes a remaining states k {states'} h =
      let (_, h1) = >>-eq-ok (require_pairs remaining) _ {b = states'} h in
      let (_, h2) =
        >>-eq-ok _ (for_pairs rt mint (freeze_entry rt mint) remaining states) {b = states'} h1 in
      let (canonical, frozen) = for_pairs-FrozenBy remaining states {states' = states'} h2 in
      let (exactly, kept, fresh) = frozen k in
      (canonical, exactly, kept, never_both (lists k remaining) (is_fully_frozen (states k)) fresh)
