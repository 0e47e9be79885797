-- ===== src/Common/Merkle/Tree.antt =====
-- Balance proofs against the tree that the root is the hash of. A forged proof is turned into a
-- collision of the hash, so nothing is assumed of `keccak` but the length of its digests.
use asseto_solana_programs.Prelude.{
  ℕ, ◌^◌, ◌<◌, ◌≡◌, refl, ◌∙◌, ◌≢◌, ap, true, ◌⊎◌, inl, inr, List, [], ◌∷◌, ◌++◌, arith, Bytes,
  length,
}
use asseto_solana_programs.Common.ProgramIds.{Pubkey}
use asseto_solana_programs.Common.Merkle.{leaf_hash, fold_sibling, fold_proof, verify_balance_proof}
use asseto_solana_programs.Common.Merkle.Order.{lex_le_total, lex_le_antisym, bytes_eq_refl}

-- A snapshot: the balances of the holders, at the leaves of a binary tree.
pub data Tree : Type 0 where
  leaf : Pubkey → ℕ → Tree
  node : Tree → Tree → Tree

-- The keys are 32 bytes and the balances `u64`.
abbrev pub IsSnapshot : Tree → Type 0
IsSnapshot (leaf account balance) = (account < 256 ^ 32) × (balance < 256 ^ 8)
IsSnapshot (node l r) = IsSnapshot l × IsSnapshot r

abbrev pub IsDigest : Bytes → Type 0
IsDigest x = length x ≡ 32

module _ (keccak : Bytes → Bytes) where
  -- Two inputs with one hash.
  abbrev pub Collision : Type 0
  Collision = (x y : Bytes) × (x ≢ y) × (keccak x ≡ keccak y)

  unfoldable pub tree_root : Tree → Bytes
  tree_root (leaf account balance) = leaf_hash keccak account balance
  tree_root (node l r) = fold_sibling keccak (tree_root l) (tree_root r)

  -- The proof lists the siblings from the leaf up to the root.
  abbrev pub Branch : Tree → Pubkey → ℕ → List Bytes → Type 0
  Branch (leaf account' balance') account balance proof =
      (account ≡ account') × (balance ≡ balance') × (proof ≡ [])
  Branch (node l r) account balance proof =
      ((q : List Bytes) × Branch l account balance q × (proof ≡ q ++ tree_root r ∷ []))
      ⊎ ((q : List Bytes) × Branch r account balance q × (proof ≡ q ++ tree_root l ∷ []))

  pub fold_proof-snoc :
      (c : Bytes) (q : List Bytes) (s : Bytes)
      → fold_proof keccak c (q ++ s ∷ []) ≡ fold_sibling keccak (fold_proof keccak c q) s
  unfolding fold_proof
  fold_proof-snoc c [] s = refl
  fold_proof-snoc c (x ∷ q) s = fold_proof-snoc (fold_sibling keccak c x) q s

  fold_sibling_comm : (a b : Bytes) → fold_sibling keccak a b ≡ fold_sibling keccak b a
  unfolding fold_sibling
  fold_sibling_comm a b = ground (arith, lex_le_total a b, lex_le_total b a, lex_le_antisym a b)

  fold_proof-Branch :
      (t : Tree) (account : Pubkey) (balance : ℕ) (proof : List Bytes)
      → Branch t account balance proof
      → fold_proof keccak (leaf_hash keccak account balance) proof ≡ tree_root t
  unfolding tree_root
  fold_proof-Branch (leaf a b) account balance proof (ea, eb, ep) =
      rw (ea, eb, ep) (unfold fold_proof in refl)
  fold_proof-Branch (node l r) account balance proof (inl (q, below, e)) = rw e (
      fold_proof-snoc _ q (tree_root r)
      ∙ ap (λ c. fold_sibling keccak c (tree_root r)) (fold_proof-Branch l account balance q below))
  fold_proof-Branch (node l r) account balance proof (inr (q, below, e)) = rw e (
      fold_proof-snoc _ q (tree_root l)
      ∙ ap (λ c. fold_sibling keccak c (tree_root l)) (fold_proof-Branch r account balance q below)
      ∙ fold_sibling_comm (tree_root r) (tree_root l))

  -- Every balance of the snapshot has a proof that is accepted: the siblings on its branch, on
  -- either side of the path.
  pub verify_balance_proof_complete :
      (t : Tree) (account : Pubkey) (balance : ℕ) (proof : List Bytes)
      → Branch t account balance proof
      → verify_balance_proof keccak proof (tree_root t) account balance ≡ true
  unfolding verify_balance_proof
  verify_balance_proof_complete t account balance proof b =
      rw (fold_proof-Branch t account balance proof b) (bytes_eq_refl (tree_root t))
