-- ===== src/Freeze/BatchEntries.antt =====
-- One entry of each of the four batches against the abstract freeze status of its account.
use asseto_solana_programs.Prelude.{
  ℕ, ⊤, ◌≡◌, ap, refl, inl, inr, Bool, true, false, Option, none, some, arith, ltb, ◌==◌, update,
  Bool-cases,
}
use asseto_solana_programs.Errors.{Result, ok, err}
use asseto_solana_programs.Common.ProgramIds.{Pubkey}
use asseto_solana_programs.Common.PdaSeeds.{Runtime}
use asseto_solana_programs.Common.State.{AccountInfo, empty, loaded, unreadable}
use asseto_solana_programs.Freeze.{
  FreezeState, FreezeStatus, is_empty, is_partially_frozen, to_status,
}
use asseto_solana_programs.Freeze.Batch.{
  States, write_or_close, expected_pda, freeze_entry, unfreeze_entry, freeze_partial_entry,
  unfreeze_partial_entry,
}
use asseto_solana_programs.Freeze.Laws.{FreezeOp, full, unfull, unpartial, partial, spec}

abbrev pub Statuses : Type 0
Statuses = Pubkey → FreezeStatus

abbrev pub thawed : FreezeStatus
thawed = record { fully_frozen = false; frozen_balance = 0 }

-- The operations that close an account when nothing is frozen any more.
abbrev pub closes : FreezeOp → Bool
closes full = false
closes unfull = true
closes (partial _) = false
closes unpartial = true

-- The status of an account while a batch runs: one that the batch has closed is unreadable, and has
-- nothing frozen.
abbrev pub HasStatus : Bool → AccountInfo FreezeState → FreezeStatus → Type 0
HasStatus closing empty st = st ≡ thawed
HasStatus closing (loaded s) st = st ≡ to_status (some s)
HasStatus closing (unreadable _) st = (closing ≡ true) × (st ≡ thawed)

abbrev pub HaveStatuses : Bool → States → Statuses → Type 0
HaveStatuses closing states st = (k : Pubkey) → HasStatus closing (states k) (st k)

-- The outcome of one entry, in the program and in its specification.
abbrev pub Agrees : FreezeOp → Pubkey → States → Result States → Option FreezeStatus → Type 0
Agrees op pda states (ok states') (some x) =
    (new : AccountInfo FreezeState) × (states' ≡ update states pda new)
    × HasStatus (closes op) new x
Agrees op pda states (ok _) none = ⊥
Agrees op pda states (err _) (some _) = ⊥
Agrees op pda states (err _) none = ⊤

module _ (rt : Runtime) (mint : Pubkey) where
  pub full_entry :
      (account pda : Pubkey) (states : States) (x : FreezeStatus) (now : AccountInfo FreezeState)
      → states pda ≡ now
      → (pda == (expected_pda rt mint account).0) ≡ true
      → HasStatus false now x
      → Agrees full pda states (freeze_entry rt mint account pda states) (spec full x)
  unfolding freeze_entry
  full_entry account pda states x empty at mine seen = rw (at, mine, seen) (_, refl, refl)
  full_entry account pda states x (loaded s) at mine seen = elim (Bool-cases s.fully_frozen) [
    | inl h ↦ rw (at, mine, seen, h) tt
    | inr h ↦ rw (at, mine, seen, h) (_, refl, refl)
  ]
  full_entry account pda states x (unreadable e) at mine seen = cc

  pub partial_entry :
      (balance account pda : ℕ) (states : States) (x : FreezeStatus) (now : AccountInfo FreezeState)
      → ltb 0 balance ≡ true
      → states pda ≡ now
      → (pda == (expected_pda rt mint account).0) ≡ true
      → HasStatus false now x
      → Agrees
          (partial balance)
          pda
          states
          (freeze_partial_entry rt mint balance account pda states)
          (spec (partial balance) x)
  unfolding freeze_partial_entry
  partial_entry balance account pda states x empty pos at mine seen =
      rw (at, mine, seen, pos) (_, refl, refl)
  partial_entry balance account pda states x (loaded s) pos at mine seen =
      rw (at, mine, seen, pos) (_, refl, refl)
  partial_entry balance account pda states x (unreadable e) pos at mine seen = cc

  -- What an operation that closes leaves of a state.
  write_or_close-HasStatus :
      (s : FreezeState) → HasStatus true (write_or_close s) (to_status (some s))
  unfolding write_or_close is_empty is_partially_frozen
  write_or_close-HasStatus s = elim (Bool-cases s.fully_frozen) [
    | inl h ↦ rw h refl
    | inr h ↦ elim (Bool-cases (ltb 0 s.frozen_balance)) [
      | inl h' ↦ rw (h, h') refl
      | inr h' ↦
          rw (h, h') (refl, ap (λ n. record thawed { frozen_balance = n }) (ground (arith, h')))
    ]
  ]

  pub unfull_entry :
      (account pda : Pubkey) (states : States) (x : FreezeStatus) (now : AccountInfo FreezeState)
      → states pda ≡ now
      → (pda == (expected_pda rt mint account).0) ≡ true
      → HasStatus true now x
      → Agrees unfull pda states (unfreeze_entry rt mint account pda states) (spec unfull x)
  unfolding unfreeze_entry
  unfull_entry account pda states x empty at mine seen = rw (at, mine, seen) tt
  unfull_entry account pda states x (loaded s) at mine seen = elim (Bool-cases s.fully_frozen) [
    | inl h ↦
        rw (at, mine, seen, h)
          (_, refl, write_or_close-HasStatus (record s { fully_frozen = false }))
    | inr h ↦ rw (at, mine, seen, h) tt
  ]
  unfull_entry account pda states x (unreadable e) at mine seen = rw (at, mine, seen.1) tt

  pub unpartial_entry :
      (account pda : Pubkey) (states : States) (x : FreezeStatus) (now : AccountInfo FreezeState)
      → states pda ≡ now
      → (pda == (expected_pda rt mint account).0) ≡ true
      → HasStatus true now x
      → Agrees unpartial pda states
          (unfreeze_partial_entry rt mint account pda states)
          (spec unpartial x)
  unfolding unfreeze_partial_entry is_partially_frozen
  unpartial_entry account pda states x empty at mine seen = rw (at, mine, seen) tt
  unpartial_entry account pda states x (loaded s) at mine seen =
      elim (Bool-cases (ltb 0 s.frozen_balance)) [
        | inl h ↦
            rw (at, mine, seen, h)
              (_, refl, write_or_close-HasStatus (record s { frozen_balance = 0 }))
        | inr h ↦ rw (at, mine, seen, h) tt
      ]
  unpartial_entry account pda states x (unreadable e) at mine seen = rw (at, mine, seen.1) tt
