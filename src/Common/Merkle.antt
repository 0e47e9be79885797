-- ===== src/Common/Merkle.antt =====
-- programs/common/src/merkle.rs: balance proofs against a snapshot root. `keccak` is the hash of the
-- external crate, on the concatenation of the slices that `hashv` is given.
pub mod Order
pub mod Tree
pub mod Soundness
mod Tests
use asseto_solana_programs.Prelude.{
  ℕ, Bool, true, false, ◌&&◌, List, [], ◌∷◌, ◌++◌, Bytes, le_bytes, ltb, ◌==◌, if◌then◌else◌, ⊤,
}
use asseto_solana_programs.Errors.{common, invalid_merkle_proof, Result, require}
use asseto_solana_programs.Common.ProgramIds.{Pubkey}
use asseto_solana_programs.Common.PdaSeeds.{as_ref}

-- `<=` on byte arrays is lexicographic.
unfoldable pub lex_le : Bytes → Bytes → Bool
lex_le [] ys = true
lex_le (x ∷ xs) [] = false
lex_le (x ∷ xs) (y ∷ ys) =
    let rest = lex_le xs ys in if ltb x y then true else if ltb y x then false else rest

unfoldable pub bytes_eq : Bytes → Bytes → Bool
bytes_eq [] [] = true
bytes_eq [] (_ ∷ _) = false
bytes_eq (_ ∷ _) [] = false
bytes_eq (x ∷ xs) (y ∷ ys) = x == y && bytes_eq xs ys

pub record LeafData : Type 0 where
  pub account : Pubkey
  pub amount : ℕ

module _ (keccak : Bytes → Bytes) where
  unfoldable pub leaf_hash : Pubkey → ℕ → Bytes
  leaf_hash account balance = keccak (as_ref account ++ le_bytes 8 balance)

  unfoldable pub hash : LeafData → Bytes
  unfolding leaf_hash
  hash leaf = leaf_hash leaf.account leaf.amount

  -- One round of the loop: the smaller hash comes first.
  unfoldable pub fold_sibling : Bytes → Bytes → Bytes
  fold_sibling computed sibling =
      if lex_le computed sibling then keccak (computed ++ sibling) else keccak (sibling ++ computed)

  unfoldable pub fold_proof : Bytes → List Bytes → Bytes
  fold_proof computed [] = computed
  fold_proof computed (sibling ∷ proof) = fold_proof (fold_sibling computed sibling) proof

  unfoldable pub verify_balance_proof : List Bytes → Bytes → Pubkey → ℕ → Bool
  unfolding leaf_hash fold_proof fold_sibling
  verify_balance_proof proof root account balance =
      bytes_eq (fold_proof (leaf_hash account balance) proof) root

  -- `require_balance_proof` of lib.rs
  unfoldable pub require_balance_proof : List Bytes → Bytes → Pubkey → ℕ → Result ⊤
  unfolding verify_balance_proof
  require_balance_proof proof root account balance =
      require (verify_balance_proof proof root account balance) (common invalid_merkle_proof)
