-- ===== src/MetadataUpdate/Size.antt =====
-- The size that the program computes for the updated metadata, against the metadata itself.
use asseto_solana_programs.Prelude.{
  ◌+◌, ◌≤◌, ◌≡◌, inl, inr, none, some, List, [], ◌∷◌, arith, Bytes, length, Bool-cases,
  Option-cases, if◌then◌else◌,
}
use asseto_solana_programs.Common.Merkle.{bytes_eq}
use asseto_solana_programs.MetadataUpdate.{
  TokenMetadata, Field, pairs_size, packed_meta_size, find, new_packed_meta_size,
}

-- The value under a key replaced where it is first found, or else a new pair at the end.
abbrev pub put : Bytes → Bytes → List (Bytes × Bytes) → List (Bytes × Bytes)
put k v [] = (k, v) ∷ []
put k v ((k', v') ∷ rest) = if bytes_eq k' k then (k', v) ∷ rest else (k', v') ∷ put k v rest

-- What the metadata interface documents of an update.
abbrev pub updated : TokenMetadata → Field → Bytes → TokenMetadata
updated meta Field.name v = record meta { name = v }
updated meta Field.symbol v = record meta { symbol = v }
updated meta Field.uri v = record meta { uri = v }
updated meta (Field.key k) v = record meta {
  additional_metadata = put k v meta.additional_metadata;
}

found_size :
    (k v : Bytes) (pairs : List (Bytes × Bytes)) (old : Bytes)
    → find k pairs ≡ some old
    → pairs_size (put k v pairs) + length old ≡ pairs_size pairs + length v
found_size k v [] old h = cc
found_size k v ((k', v') ∷ rest) old h = elim (Bool-cases (bytes_eq k' k)) [
  | inl hit ↦ ground (arith, hit, h)
  | inr miss ↦ rw miss (omega (arith, found_size k v rest old (rw miss at h)))
]

found_le :
    (k : Bytes) (pairs : List (Bytes × Bytes)) (old : Bytes)
    → find k pairs ≡ some old
    → length old ≤ pairs_size pairs
found_le k [] old h = cc
found_le k ((k', v') ∷ rest) old h = elim (Bool-cases (bytes_eq k' k)) [
  | inl hit ↦ ground (arith, hit, h)
  | inr miss ↦ omega (arith, found_le k rest old (rw miss at h))
]

added_size :
    (k v : Bytes) (pairs : List (Bytes × Bytes))
    → find k pairs ≡ none
    → pairs_size (put k v pairs) ≡ pairs_size pairs + 4 + length k + 4 + length v
added_size k v [] h = omega arith
added_size k v ((k', v') ∷ rest) h = elim (Bool-cases (bytes_eq k' k)) [
  | inl hit ↦ ground (arith, hit, h)
  | inr miss ↦ rw miss (omega (arith, added_size k v rest (rw miss at h)))
]

-- The size that is computed from the old metadata and the new value is the size of the metadata after
-- the update.
pub new_packed_meta_size-updated :
    (meta : TokenMetadata) (field : Field) (value : Bytes)
    → new_packed_meta_size meta field value ≡ packed_meta_size (updated meta field value)
unfolding new_packed_meta_size packed_meta_size
new_packed_meta_size-updated meta Field.name value = omega arith
new_packed_meta_size-updated meta Field.symbol value = omega arith
new_packed_meta_size-updated meta Field.uri value = omega arith
new_packed_meta_size-updated meta (Field.key k) value =
    elim (Option-cases (find k meta.additional_metadata)) [
      | inl absent ↦
          rw (new_packed_meta_size, absent)
            (omega (arith, added_size k value meta.additional_metadata absent))
      | inr (old, present) ↦
          rw (new_packed_meta_size, present)
            (omega (
              arith,
              found_size k value meta.additional_metadata old present,
              found_le k meta.additional_metadata old present,
            ))
    ]
