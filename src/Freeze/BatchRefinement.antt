-- ===== src/Freeze/BatchRefinement.antt =====
-- The four batches against the abstract freeze status of every account.
use asseto_solana_programs.Prelude.{
  ℕ, ⊤, ◌≡◌, sym, subst, refl, inl, inr, ◌*◌, if◌then◌else◌, ◌&&◌, Bool, true, false, Option, none,
  some, List, [], ◌∷◌, length, arith, ◌==◌, update, Bool-cases, ==_iff,
}
use asseto_solana_programs.Errors.{Error, freeze, FreezeError, Result, ok, err, ◌>>=◌, ◌>>◌}
use asseto_solana_programs.Common.ProgramIds.{Pubkey}
use asseto_solana_programs.Common.PdaSeeds.{Runtime}
use asseto_solana_programs.Common.State.{AccountInfo}
use asseto_solana_programs.Common.Guards.{AssetAccounts, require_authorized}
use asseto_solana_programs.Common.Roles.{role_freeze_manager}
use asseto_solana_programs.Common.Functionalities.{
  freeze_freeze_account, freeze_unfreeze_account, freeze_remove_partial_freeze,
}
use asseto_solana_programs.Freeze.{FreezeState, FreezeStatus}
use asseto_solana_programs.Freeze.Batch.{
  States, is_nil, require_pairs, all_positive, expected_pda, freeze_entry, unfreeze_entry,
  freeze_partial_entry, unfreeze_partial_entry, for_pairs, for_balances, batch_freeze_account,
  batch_unfreeze_account, batch_freeze_account_partial, batch_unfreeze_account_partial,
}
use asseto_solana_programs.Freeze.Laws.{
  FreezeOp, full, unfull, unpartial, partial, spec, functionality_of,
}
use asseto_solana_programs.Freeze.BatchLaws.{AllCanonical}
use asseto_solana_programs.Freeze.BatchEntries.{
  Statuses, closes, HasStatus, HaveStatuses, Agrees, full_entry, partial_entry, unfull_entry,
  unpartial_entry,
}
use asseto_solana_programs.Freeze.BatchSpec.{
  apply_all, apply_balances, RefinesAll, BatchOp, batch_full, batch_unfull, batch_partial,
  batch_unpartial, op_of, even_pairs, spec_batch,
}

pub update-HaveStatuses :
    (closing : Bool) (states : States) (st : Statuses) (pda : Pubkey)
    (new : AccountInfo FreezeState) (x : FreezeStatus)
    → HaveStatuses closing states st
    → HasStatus closing new x
    → HaveStatuses closing (update states pda new) (update st pda x)
update-HaveStatuses closing states st pda new x have has k = elim (Bool-cases (pda == k)) [
  | inl h ↦ rw h has
  | inr h ↦ rw h (have k)
]

-- An entry that agrees with its specification, and the rest of the batch after it.
entry_then :
    (op : FreezeOp) (pda : Pubkey) (states : States) (st : Statuses) (first : Result States)
    (expected : Option FreezeStatus) (rest : States → Result States)
    (rest_spec : Statuses → Option Statuses)
    → HaveStatuses (closes op) states st
    → Agrees op pda states first expected
    → ((mid : States) (at_mid : Statuses)
        → HaveStatuses (closes op) mid at_mid
        → RefinesAll (closes op) (rest mid) (rest_spec at_mid))
    → RefinesAll
        (closes op)
        (first >>= rest)
        (elim expected [ none ↦ none | some x ↦ rest_spec (update st pda x) ])
entry_then op pda states st (ok mid) (some x) rest rest_spec have (new, e, has) next =
    next mid (update st pda x) (
      subst (λ m. HaveStatuses (closes op) m (update st pda x)) (sym e)
        (update-HaveStatuses (closes op) states st pda new x have has))
entry_then op pda states st (ok mid) none rest rest_spec have agree next = absurd agree
entry_then op pda states st (err e) (some x) rest rest_spec have agree next = absurd agree
entry_then op pda states st (err e) none rest rest_spec have agree next = tt

&&-true : (b c : Bool) → (b && c) ≡ true → (b ≡ true) × (c ≡ true)
&&-true true c h = (refl, h)
&&-true false c h = absurd (ground (arith, h))

require_pairs_ok :
    (remaining : List Pubkey) → even_pairs remaining ≡ true → require_pairs remaining ≡ ok tt
require_pairs_ok remaining h = ground (arith, h)

require_pairs_err :
    (remaining : List Pubkey)
    → even_pairs remaining ≡ false
    → (e : Error) × (require_pairs remaining ≡ err e)
require_pairs_err [] h = (_, refl)
require_pairs_err (k ∷ ks) h = (freeze FreezeError.invalid_remaining_accounts, rw h refl)

module _ (rt : Runtime) (mint : Pubkey) where
  -- An entry of a batch that agrees with the operation wherever it is run on a canonical address.
  abbrev IsEntryOf : FreezeOp → (Pubkey → Pubkey → States → Result States) → Type 0
  IsEntryOf op entry =
      (account pda : Pubkey) (states : States) (x : FreezeStatus)
      → (pda == (expected_pda rt mint account).0) ≡ true
      → HasStatus (closes op) (states pda) x
      → Agrees op pda states (entry account pda states) (spec op x)

  for_pairs-Refines :
      (op : FreezeOp) (entry : Pubkey → Pubkey → States → Result States)
      → IsEntryOf op entry
      → (remaining : List Pubkey) (states : States) (st : Statuses) → AllCanonical rt mint remaining
      → HaveStatuses (closes op) states st
      → RefinesAll
          (closes op)
          (for_pairs rt mint entry remaining states)
          (apply_all op remaining st)
  unfolding for_pairs
  for_pairs-Refines op entry is [] states st canonical have = have
  for_pairs-Refines op entry is (_ ∷ []) states st canonical have = have
  for_pairs-Refines op entry is (account ∷ pda ∷ remaining) states st (mine, canonical) have =
      entry_then op pda states st (entry account pda states) (spec op (st pda))
        (for_pairs rt mint entry remaining) (apply_all op remaining) have
        (is account pda states (st pda) ((==_iff pda _).1 mine) (have pda))
        (λ mid at_mid. for_pairs-Refines op entry is remaining mid at_mid canonical)

  -- A batch that repeats one operation, after its two checks.
  pairs-Refines :
      (op : FreezeOp) (entry : Pubkey → Pubkey → States → Result States)
      → IsEntryOf op entry
      → (authorization : Result ⊤) (remaining : List Pubkey) (states : States) (st : Statuses)
      → authorization ≡ ok tt
      → AllCanonical rt mint remaining
      → HaveStatuses (closes op) states st
      → RefinesAll
          (closes op)
          (require_pairs remaining >> (authorization >> for_pairs rt mint entry remaining states))
          (if even_pairs remaining then apply_all op remaining st else none)
  pairs-Refines op entry is authorization remaining states st auth canonical have =
      elim (Bool-cases (even_pairs remaining)) [
        | inl h ↦
            rw (require_pairs_ok remaining h, auth, h)
              (for_pairs-Refines op entry is remaining states st canonical have)
        | inr h ↦ rw ((require_pairs_err remaining h).1, h) tt
      ]

  for_balances-Refines :
      (balances : List ℕ) (remaining : List Pubkey) (states : States) (st : Statuses)
      → all_positive balances ≡ true
      → AllCanonical rt mint remaining
      → HaveStatuses false states st
      → RefinesAll false
          (for_balances rt mint balances remaining states)
          (apply_balances balances remaining st)
  unfolding for_balances
  for_balances-Refines [] remaining states st positive canonical have = have
  for_balances-Refines (_ ∷ _) [] states st positive canonical have = have
  for_balances-Refines (_ ∷ _) (_ ∷ []) states st positive canonical have = have
  for_balances-Refines (balance ∷ balances) (account ∷ pda ∷ remaining) states st positive
        (mine, canonical) have =
      let (first, others) = &&-true _ _ positive in
      entry_then (partial balance) pda states st
        (freeze_partial_entry rt mint balance account pda states) (spec (partial balance) (st pda))
        (for_balances rt mint balances remaining) (apply_balances balances remaining) have
        (partial_entry rt mint balance account pda states (st pda) (states pda) first refl
          ((==_iff pda _).1 mine) (have pda))
        (λ mid at_mid. for_balances-Refines balances remaining mid at_mid others canonical)

  -- The entry points of lib.rs.
  unfoldable pub run_batch : BatchOp → AssetAccounts → List Pubkey → States → Result States
  unfolding batch_freeze_account batch_unfreeze_account batch_freeze_account_partial
      batch_unfreeze_account_partial
  run_batch batch_full a = batch_freeze_account rt mint a
  run_batch batch_unfull a = batch_unfreeze_account rt mint a
  run_batch (batch_partial balances) a = batch_freeze_account_partial rt mint a balances
  run_batch batch_unpartial a = batch_unfreeze_account_partial rt mint a

  -- With the authorisation given and every pair naming its account's own freeze state, a batch does what
  -- its operation does on each account in turn, the later ones after the earlier; it fails as a whole
  -- where one of them fails, or where the lists are empty or do not fit.
  pub run_batch-Refines :
      (b : BatchOp) (a : AssetAccounts) (remaining : List Pubkey) (states : States) (st : Statuses)
      → require_authorized a role_freeze_manager (functionality_of (op_of b)) ≡ ok tt
      → AllCanonical rt mint remaining
      → HaveStatuses (closes (op_of b)) states st
      → RefinesAll (closes (op_of b)) (run_batch b a remaining states) (spec_batch b remaining st)
  unfolding run_batch
  run_batch-Refines batch_full a remaining states st auth canonical have =
      pairs-Refines full (freeze_entry rt mint)
        (λ account pda s x. full_entry rt mint account pda s x (s pda) refl)
        (require_authorized a role_freeze_manager freeze_freeze_account) remaining states st auth
        canonical have
  run_batch-Refines batch_unfull a remaining states st auth canonical have =
      pairs-Refines unfull (unfreeze_entry rt mint)
        (λ account pda s x. unfull_entry rt mint account pda s x (s pda) refl)
        (require_authorized a role_freeze_manager freeze_unfreeze_account) remaining states st auth
        canonical have
  run_batch-Refines batch_unpartial a remaining states st auth canonical have =
      pairs-Refines unpartial (unfreeze_partial_entry rt mint)
        (λ account pda s x. unpartial_entry rt mint account pda s x (s pda) refl)
        (require_authorized a role_freeze_manager freeze_remove_partial_freeze) remaining states st
        auth canonical have
  run_batch-Refines (batch_partial balances) a remaining states st auth canonical have =
      elim (Bool-cases (is_nil balances)) [
        | inl h ↦ rw h tt
        | inr h ↦ elim (Bool-cases (all_positive balances)) [
          | inr h' ↦ rw (h, h') tt
          | inl h' ↦ elim (Bool-cases (length remaining == length balances * 2)) [
            | inr h'' ↦ rw (h, h', h'') tt
            | inl h'' ↦
                rw (h, h', h'', auth)
                  (for_balances-Refines balances remaining states st h' canonical have)
          ]
        ]
      ]
