-- ===== src/Common/Merkle/Tests.antt =====
-- A snapshot of two holders under a toy hash.
use asseto_solana_programs.Prelude.{
  ℕ, ◌+◌, ◌*◌, ◌≡◌, refl, ◌⊎◌, inl, true, List, [], ◌∷◌, ◌++◌, arith, Bytes, le_bytes,
  length-le_bytes,
}
use asseto_solana_programs.Common.PdaSeeds.{as_ref}
use asseto_solana_programs.Common.Merkle.{leaf_hash, verify_balance_proof}
use asseto_solana_programs.Common.Merkle.Tree.{
  Tree, leaf, node, Branch, Collision, IsDigest, tree_root, verify_balance_proof_complete,
}
use asseto_solana_programs.Common.Merkle.Soundness.{verify_balance_proof_sound}

abbrev number : Bytes → ℕ
number [] = 1
number (b ∷ bs) = b + 257 * number bs

abbrev toy_hash : Bytes → Bytes
toy_hash x = le_bytes 32 (number x)

toy_hash-IsDigest : (x : Bytes) → IsDigest (toy_hash x)
toy_hash-IsDigest x = length-le_bytes 32 (number x)

abbrev snapshot : Tree
snapshot = node (leaf 1 10) (leaf 2 20)

abbrev proof : List Bytes
proof = leaf_hash toy_hash 2 20 ∷ []

branch : Branch toy_hash snapshot 1 10 proof
unfolding tree_root
branch = inl ([], (refl, refl, refl), refl)

verify_balance_proof_complete_example :
    verify_balance_proof toy_hash proof (tree_root toy_hash snapshot) 1 10 ≡ true
verify_balance_proof_complete_example =
    verify_balance_proof_complete toy_hash snapshot 1 10 proof branch

sibling-IsDigest : IsDigest (leaf_hash toy_hash 2 20)
unfolding leaf_hash
sibling-IsDigest = toy_hash-IsDigest (as_ref 2 ++ le_bytes 8 20)

verify_balance_proof_sound_example : Branch toy_hash snapshot 1 10 proof ⊎ Collision toy_hash
verify_balance_proof_sound_example =
    verify_balance_proof_sound toy_hash toy_hash-IsDigest snapshot 1 10 proof
      ((omega arith, omega arith), (omega arith, omega arith)) (omega arith, omega arith)
      (sibling-IsDigest, tt) verify_balance_proof_complete_example
