-- ===== src/Common/Merkle/Soundness.antt =====
-- An accepted proof is a branch of the tree, or it exhibits a collision of the hash.
use asseto_solana_programs.Prelude.{
  ℕ, ◌^◌, ◌<◌, ◌≡◌, refl, sym, ◌∙◌, ap, true, ◌⊎◌, inl, inr, List, [], ◌∷◌, ◌++◌, arith, Bytes,
  le_bytes, length, length-append, All, Bool-cases,
}
use asseto_solana_programs.Common.ProgramIds.{Pubkey}
use asseto_solana_programs.Common.PdaSeeds.{as_ref}
use asseto_solana_programs.Common.Merkle.{
  lex_le, bytes_eq, leaf_hash, fold_sibling, fold_proof, verify_balance_proof,
}
use asseto_solana_programs.Common.Merkle.Order.{
  bytes_eq-eq, bytes_eq_refl, append-eq_parts, le_bytes_injective,
}
use asseto_solana_programs.Common.Merkle.Tree.{
  Tree, leaf, node, IsSnapshot, IsDigest, Collision, tree_root, Branch, fold_proof-snoc,
}

snoc_cases : (p : List Bytes) → (p ≡ []) ⊎ ((q : List Bytes) × (s : Bytes) × (p ≡ q ++ s ∷ []))
snoc_cases [] = inl refl
snoc_cases (x ∷ p) = elim (snoc_cases p) [
  | inl e ↦ inr ([], x, ap (◌∷◌ x) e)
  | inr (q, s, e) ↦ inr (x ∷ q, s, ap (◌∷◌ x) e)
]

All-snoc : (q : List Bytes) (s : Bytes) → All IsDigest (q ++ s ∷ []) → All IsDigest q × IsDigest s
All-snoc [] s h = (tt, h.0)
All-snoc (x ∷ q) s h = let rest = All-snoc q s h.1 in ((h.0, rest.0), rest.1)

leaf_input-injective :
    (a b a' b' : ℕ)
    → (a < 256 ^ 32) × (b < 256 ^ 8)
    → (a' < 256 ^ 32) × (b' < 256 ^ 8)
    → as_ref a ++ le_bytes 8 b ≡ as_ref a' ++ le_bytes 8 b'
    → (a ≡ a') × (b ≡ b')
unfolding as_ref
leaf_input-injective a b a' b' h h' e =
    let parts =
      append-eq_parts (le_bytes 32 a) (le_bytes 32 a') (le_bytes 8 b) (le_bytes 8 b') refl e in
    (le_bytes_injective 32 a a' h.0 h'.0 parts.0, le_bytes_injective 8 b b' h.1 h'.1 parts.1)

length-leaf_input : (a b : ℕ) → length (as_ref a ++ le_bytes 8 b) ≡ 40
unfolding as_ref
length-leaf_input a b = refl

module _ (keccak : Bytes → Bytes) (digest : (x : Bytes) → IsDigest (keccak x)) where
  same_input : (x y : Bytes) → keccak x ≡ keccak y → (x ≡ y) ⊎ Collision keccak
  same_input x y h = elim (Bool-cases (bytes_eq x y)) [
    | inl e ↦ inl (bytes_eq-eq x y e)
    | inr ne ↦ inr (x, y, (λ e. cc (sym ne, ap (bytes_eq x) (sym e), bytes_eq_refl x)), h)
  ]

  -- The input that a pair of children is hashed from, and its length.
  pair_input :
      (a b : Bytes)
      → (fold_sibling keccak a b ≡ keccak (a ++ b)) ⊎ (fold_sibling keccak a b ≡ keccak (b ++ a))
  unfolding fold_sibling
  pair_input a b = elim (Bool-cases (lex_le a b)) [ inl e ↦ inl (rw e) | inr e ↦ inr (rw e) ]

  fold_sibling-IsDigest : (a b : Bytes) → IsDigest (fold_sibling keccak a b)
  fold_sibling-IsDigest a b = elim (pair_input a b) [
    | inl e ↦ rw e (digest (a ++ b))
    | inr e ↦ rw e (digest (b ++ a))
  ]

  fold_proof-IsDigest : (c : Bytes) (p : List Bytes) → IsDigest c → IsDigest (fold_proof keccak c p)
  unfolding fold_proof
  fold_proof-IsDigest c [] h = h
  fold_proof-IsDigest c (s ∷ p) h =
      fold_proof-IsDigest (fold_sibling keccak c s) p (fold_sibling-IsDigest c s)

  leaf_hash-IsDigest : (a b : ℕ) → IsDigest (leaf_hash keccak a b)
  unfolding leaf_hash
  leaf_hash-IsDigest a b = digest (as_ref a ++ le_bytes 8 b)

  tree_root-IsDigest : (t : Tree) → IsDigest (tree_root keccak t)
  unfolding tree_root
  tree_root-IsDigest (leaf a b) = leaf_hash-IsDigest a b
  tree_root-IsDigest (node l r) = fold_sibling-IsDigest (tree_root keccak l) (tree_root keccak r)

  -- A leaf is hashed from 40 bytes and a node from 64.
  leaf_not_node :
      (a b : ℕ) (c d : Bytes)
      → IsDigest c
      → IsDigest d
      → leaf_hash keccak a b ≡ fold_sibling keccak c d
      → Collision keccak
  unfolding leaf_hash
  leaf_not_node a b c d hc hd e = elim (pair_input c d) [
    | inl f ↦ elim (same_input (as_ref a ++ le_bytes 8 b) (c ++ d) (e ∙ f)) [
      | inl g ↦ absurd (omega (arith, ap length g, length-leaf_input a b, length-append c d))
      | inr found ↦ found
    ]
    | inr f ↦ elim (same_input (as_ref a ++ le_bytes 8 b) (d ++ c) (e ∙ f)) [
      | inl g ↦ absurd (omega (arith, ap length g, length-leaf_input a b, length-append d c))
      | inr found ↦ found
    ]
  ]

  abbrev SamePair : Bytes → Bytes → Bytes → Bytes → Type 0
  SamePair a b c d = ((a ≡ c) × (b ≡ d)) ⊎ ((a ≡ d) × (b ≡ c)) ⊎ Collision keccak

  same_concat :
      (a b c d : Bytes)
      → IsDigest a
      → IsDigest c
      → keccak (a ++ b) ≡ keccak (c ++ d)
      → ((a ≡ c) × (b ≡ d)) ⊎ Collision keccak
  same_concat a b c d ha hc e = elim (same_input (a ++ b) (c ++ d) e) [
    | inl g ↦ inl (append-eq_parts a c b d (ha ∙ sym hc) g)
    | inr found ↦ inr found
  ]

  same_pair :
      (a b c d : Bytes)
      → IsDigest a
      → IsDigest b
      → IsDigest c
      → IsDigest d
      → fold_sibling keccak a b ≡ fold_sibling keccak c d
      → SamePair a b c d
  same_pair a b c d ha hb hc hd e = elim (pair_input a b) [
    | inl f ↦ elim (pair_input c d) [
      | inl g ↦ ground (arith, same_concat a b c d ha hc (sym f ∙ e ∙ g))
      | inr g ↦ ground (arith, same_concat a b d c ha hd (sym f ∙ e ∙ g))
    ]
    | inr f ↦ elim (pair_input c d) [
      | inl g ↦ ground (arith, same_concat b a c d hb hc (sym f ∙ e ∙ g))
      | inr g ↦ ground (arith, same_concat b a d c hb hd (sym f ∙ e ∙ g))
    ]
  ]

  -- From the root down: the last sibling of the proof belongs to the top of the tree.
  fold_proof_sound :
      (t : Tree) (account balance : ℕ) (proof : List Bytes)
      → IsSnapshot t
      → (account < 256 ^ 32) × (balance < 256 ^ 8)
      → All IsDigest proof
      → fold_proof keccak (leaf_hash keccak account balance) proof ≡ tree_root keccak t
      → Branch keccak t account balance proof ⊎ Collision keccak
  unfolding tree_root
  fold_proof_sound (leaf a b) account balance proof hs ht hp e = elim (snoc_cases proof) [
    | inl none_left ↦
        elim (same_input (as_ref account ++ le_bytes 8 balance) (as_ref a ++ le_bytes 8 b)
          (unfold leaf_hash fold_proof in (rw none_left at e))) [
            | inl g ↦
                let eqs = leaf_input-injective account balance a b ht hs g in
                inl (eqs.0, eqs.1, none_left)
            | inr found ↦ inr found
          ]
    | inr (q, s, last) ↦
        let digests = All-snoc q s (rw last at hp) in
        inr (
          leaf_not_node a b (fold_proof keccak (leaf_hash keccak account balance) q) s
            (fold_proof-IsDigest _ q (leaf_hash-IsDigest account balance)) digests.1
            (sym e ∙ ap (fold_proof keccak _) last ∙ fold_proof-snoc keccak _ q s))
  ]
  fold_proof_sound (node l r) account balance proof hs ht hp e = elim (snoc_cases proof) [
    | inl none_left ↦ inr (
        leaf_not_node account balance (tree_root keccak l) (tree_root keccak r)
          (tree_root-IsDigest l) (tree_root-IsDigest r) (unfold fold_proof in (rw none_left at e)))
    | inr (q, s, last) ↦
        let digests = All-snoc q s (rw last at hp) in
        let c = fold_proof keccak (leaf_hash keccak account balance) q in
        elim (same_pair c s (tree_root keccak l) (tree_root keccak r)
          (fold_proof-IsDigest _ q (leaf_hash-IsDigest account balance)) digests.1
          (tree_root-IsDigest l) (tree_root-IsDigest r)
          (sym (fold_proof-snoc keccak _ q s) ∙ ap (fold_proof keccak _) (sym last) ∙ e)) [
            | inl (below, other) ↦
                elim (fold_proof_sound l account balance q hs.0 ht digests.0 below) [
                  | inl b ↦ inl (inl (q, b, last ∙ ap (λ x. q ++ x ∷ []) other))
                  | inr found ↦ inr found
                ]
            | inr (inl (below, other)) ↦
                elim (fold_proof_sound r account balance q hs.1 ht digests.0 below) [
                  | inl b ↦ inl (inr (q, b, last ∙ ap (λ x. q ++ x ∷ []) other))
                  | inr found ↦ inr found
                ]
            | inr (inr found) ↦ inr found
          ]
  ]

  -- A proof that is accepted against the root of a snapshot is a branch of it that ends in that
  -- account with that balance; if it is not, two inputs with one hash are at hand.
  pub verify_balance_proof_sound :
      (t : Tree) (account : Pubkey) (balance : ℕ) (proof : List Bytes)
      → IsSnapshot t
      → (account < 256 ^ 32) × (balance < 256 ^ 8)
      → All IsDigest proof
      → verify_balance_proof keccak proof (tree_root keccak t) account balance ≡ true
      → Branch keccak t account balance proof ⊎ Collision keccak
  unfolding verify_balance_proof
  verify_balance_proof_sound t account balance proof hs ht hp e =
      fold_proof_sound t account balance proof hs ht hp (bytes_eq-eq _ _ e)
