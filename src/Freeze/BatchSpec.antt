-- ===== src/Freeze/BatchSpec.antt =====
-- What the four batches mean: an operation on the abstract freeze status of each account in turn.
use asseto_solana_programs.Prelude.{
  ℕ, ⊤, ◌*◌, ◌%◌, if◌then◌else◌, ◌&&◌, Bool, Option, none, some, List, [], ◌∷◌, length, ◌==◌,
  update, not,
}
use asseto_solana_programs.Errors.{Result, ok, err}
use asseto_solana_programs.Common.ProgramIds.{Pubkey}
use asseto_solana_programs.Freeze.Batch.{States, is_nil, all_positive}
use asseto_solana_programs.Freeze.Laws.{FreezeOp, full, unfull, unpartial, partial, spec}
use asseto_solana_programs.Freeze.BatchEntries.{Statuses, HaveStatuses}

-- The specification of a batch: the operation on each account of the list in turn, or nothing at all.
abbrev pub apply_all : FreezeOp → List Pubkey → Statuses → Option Statuses
apply_all op [] st = some st
apply_all op (_ ∷ []) st = some st
apply_all op (account ∷ pda ∷ remaining) st = elim (spec op (st pda)) [
  | none ↦ none
  | some x ↦ apply_all op remaining (update st pda x)
]

abbrev pub apply_balances : List ℕ → List Pubkey → Statuses → Option Statuses
apply_balances [] remaining st = some st
apply_balances (_ ∷ _) [] st = some st
apply_balances (_ ∷ _) (_ ∷ []) st = some st
apply_balances (balance ∷ balances) (account ∷ pda ∷ remaining) st =
    elim (spec (partial balance) (st pda)) [
      | none ↦ none
      | some x ↦ apply_balances balances remaining (update st pda x)
    ]

-- The batch succeeds exactly if its specification does, with the statuses that it gives.
abbrev pub RefinesAll : Bool → Result States → Option Statuses → Type 0
RefinesAll closing (ok states) (some st) = HaveStatuses closing states st
RefinesAll closing (ok _) none = ⊥
RefinesAll closing (err _) (some _) = ⊥
RefinesAll closing (err _) none = ⊤

pub data BatchOp : Type 0 where
  batch_full batch_unfull batch_unpartial : BatchOp
  batch_partial : List ℕ → BatchOp

-- The operation that a batch repeats, but for the balances.
abbrev pub op_of : BatchOp → FreezeOp
op_of batch_full = full
op_of batch_unfull = unfull
op_of (batch_partial _) = partial 0
op_of batch_unpartial = unpartial

abbrev pub even_pairs : List Pubkey → Bool
even_pairs remaining = not (is_nil remaining) && (length remaining % 2 == 0)

abbrev pub fit : List ℕ → List Pubkey → Bool
fit balances remaining =
    not (is_nil balances) && (all_positive balances && (length remaining == length balances * 2))

abbrev pub spec_batch : BatchOp → List Pubkey → Statuses → Option Statuses
spec_batch (batch_partial balances) remaining st =
    if fit balances remaining then apply_balances balances remaining st else none
spec_batch b remaining st = if even_pairs remaining then apply_all (op_of b) remaining st else none
