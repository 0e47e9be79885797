-- ===== src/MetadataUpdate/Funding.antt =====
-- Who updates a field, and that the mint has the rent of its longer metadata before Token-2022 writes it.
use asseto_solana_programs.Prelude.{
  ℕ, ◌+◌, ◌-◌, ◌≡◌, ◌≢◌, refl, ap, sym, subst, ◌∙◌, inl, inr, true, false, ◌&&◌, ◌||◌,
  if◌then◌else◌, arith, Bytes, ltb, update, update_self, Bool-cases,
}
use asseto_solana_programs.Errors.{ok, >>=-eq-ok, >>-eq-ok, ok_inj}
use asseto_solana_programs.Common.ProgramIds.{Pubkey}
use asseto_solana_programs.Common.PdaSeeds.{Runtime, codes}
use asseto_solana_programs.Common.Guards.{AssetAccounts, require_authorized}
use asseto_solana_programs.Common.Authorized.{IsAuthorized, require_authorized-IsAuthorized}
use asseto_solana_programs.Common.Merkle.{bytes_eq}
use asseto_solana_programs.Common.Roles.{role_admin, role_custom_data_manager}
use asseto_solana_programs.Common.System.{SystemProgram, SystemLaws}
use asseto_solana_programs.Common.Functionalities.{metadata_update_update_metadata_field}
use asseto_solana_programs.MetadataUpdate.{
  TokenMetadata, Field, to_field, packed_meta_size, required_role, MetadataProgram,
  metadata_update_authority, additional_lamports, pay_rent, update_metadata_field,
}
use asseto_solana_programs.MetadataUpdate.Size.{updated, new_packed_meta_size-updated}

-- Who may write a key: an admin the two that name the asset, a data manager any other.
abbrev pub editor : (Bytes → Bytes) → Bytes → ℕ
editor to_lowercase k =
    if bytes_eq (to_lowercase k) (codes "name") || bytes_eq (to_lowercase k) (codes "symbol")
    then role_admin
    else role_custom_data_manager

-- The field that a key names.
abbrev pub Names : (Bytes → Bytes) → Bytes → Field → Type 0
Names to_lowercase k Field.name = bytes_eq (to_lowercase k) (codes "name") ≡ true
Names to_lowercase k Field.symbol = bytes_eq (to_lowercase k) (codes "symbol") ≡ true
Names to_lowercase k Field.uri = bytes_eq (to_lowercase k) (codes "uri") ≡ true
Names to_lowercase k (Field.key k') =
    (k' ≡ k)
    × (bytes_eq (to_lowercase k) (codes "name") ≡ false)
    × (bytes_eq (to_lowercase k) (codes "symbol") ≡ false)
    × (bytes_eq (to_lowercase k) (codes "uri") ≡ false)

required_role-editor :
    (to_lowercase : Bytes → Bytes) (k : Bytes)
    → required_role (to_field to_lowercase k) ≡ editor to_lowercase k
unfolding required_role to_field
required_role-editor to_lowercase k = elim (Bool-cases (bytes_eq (to_lowercase k) (codes "name"))) [
  | inl h ↦ rw h refl
  | inr h ↦ elim (Bool-cases (bytes_eq (to_lowercase k) (codes "symbol"))) [
    | inl h' ↦ rw (h, h') refl
    | inr h' ↦ elim (Bool-cases (bytes_eq (to_lowercase k) (codes "uri"))) [
      | inl h'' ↦ rw (h, h', h'') refl
      | inr h'' ↦ rw (h, h', h'') refl
    ]
  ]
]

to_field-Names :
    (to_lowercase : Bytes → Bytes) (k : Bytes) → Names to_lowercase k (to_field to_lowercase k)
unfolding to_field
to_field-Names to_lowercase k = elim (Bool-cases (bytes_eq (to_lowercase k) (codes "name"))) [
  | inl h ↦ rw h h
  | inr h ↦ elim (Bool-cases (bytes_eq (to_lowercase k) (codes "symbol"))) [
    | inl h' ↦ rw (h, h') h'
    | inr h' ↦ elim (Bool-cases (bytes_eq (to_lowercase k) (codes "uri"))) [
      | inl h'' ↦ rw (h, h', h'') h''
      | inr h'' ↦ rw (h, h', h'') (refl, h, h', h'')
    ]
  ]
]

module _ (rt : Runtime) (sys : SystemProgram) (mp : MetadataProgram sys)
    (to_lowercase : Bytes → Bytes) where
  open sys use {Accounts, lamports, data_len, minimum_balance}

  -- The mint's lamports are raised to the rent of the account with the updated metadata, if these are
  -- longer and it has fewer; else they stay.
  abbrev pub IsFunded : Pubkey → TokenMetadata → TokenMetadata → Accounts → Accounts → Type 0
  IsFunded mint old new l l1 =
      let rent = minimum_balance (data_len l mint + packed_meta_size new - packed_meta_size old) in
      lamports l1 mint ≡ (
        if ltb (packed_meta_size old) (packed_meta_size new) && ltb (lamports l mint) rent
        then rent
        else lamports l mint)

  paid_amount :
      (laws : SystemLaws sys) (payer mint : Pubkey) (amount : ℕ) (l : Accounts) {l1 : Accounts}
      → mint ≢ payer
      → pay_rent rt sys mp to_lowercase payer mint amount l ≡ ok l1
      → lamports l1 mint ≡ lamports l mint + amount
  unfolding pay_rent
  paid_amount laws payer mint amount l {l1} apart h = elim (Bool-cases (ltb 0 amount)) [
    | inl some_rent ↦
        let (_, moved, _) =
          laws.transfer_moves payer mint amount l apart (rw (pay_rent, some_rent) at h) in
        ap (λ f. f mint) moved
        ∙ update_self (update (lamports l) payer (lamports l payer - amount)) mint
            (lamports l mint + amount)
    | inr no_rent ↦
        ap (λ x. lamports x mint) (sym (ok_inj (rw (pay_rent, no_rent) at h)))
        ∙ ground (arith, no_rent)
  ]

  raised :
      (mint : Pubkey) (meta : TokenMetadata) (field : Field) (value : Bytes) (l l1 : Accounts)
      → lamports l1 mint
        ≡ lamports l mint + additional_lamports rt sys mp to_lowercase mint meta field value l
      → IsFunded mint meta (updated meta field value) l l1
  unfolding additional_lamports
  raised mint meta field value l l1 paid =
      let same = new_packed_meta_size-updated meta field value in ground (arith, paid, same)

  -- Under SystemLaws and with a payer other than the mint, an update of a field that succeeds is by an
  -- account with the admin role, if the key in lower case is "name" or "symbol", or else with the data
  -- manager's. The field that is written is the one of that name, or the custom field of the key as it
  -- is. Before Token-2022 writes it, the mint's lamports are raised to the rent of its account with
  -- the updated metadata, if these are longer than before and the mint has fewer; else they are left
  -- as they are.
  pub update_metadata_field-IsFunded :
      SystemLaws sys
      → (a : AssetAccounts) (payer mint : Pubkey) (k value : Bytes) (l : Accounts) {l' : Accounts}
      → mint ≢ payer
      → update_metadata_field rt sys mp to_lowercase a payer mint k value l ≡ ok l'
      → IsAuthorized a (editor to_lowercase k) metadata_update_update_metadata_field
        × ((field : Field) × (meta : TokenMetadata) × (l1 : Accounts) × Names to_lowercase k field
            × (mp.metadata mint l ≡ ok meta)
            × IsFunded mint meta (updated meta field value) l l1
            × (mp.update_field mint (metadata_update_authority rt mint) field value l1 ≡ ok l'))
  unfolding update_metadata_field
  update_metadata_field-IsFunded laws a payer mint k value l {l'} apart h =
      let field = to_field to_lowercase k in
      let (auth, h1) =
        >>-eq-ok (require_authorized a (required_role field) metadata_update_update_metadata_field)
          _ {b = l'} h in
      let (meta, read, h2) = >>=-eq-ok (mp.metadata mint l) _ {b = l'} h1 in
      let amount = additional_lamports rt sys mp to_lowercase mint meta field value l in
      let (l1, paid, wrote) =
        >>=-eq-ok (pay_rent rt sys mp to_lowercase payer mint amount l) _ {b = l'} h2 in
      let now = paid_amount laws payer mint amount l apart paid in
      (
        subst (λ r. IsAuthorized a r metadata_update_update_metadata_field)
            (required_role-editor to_lowercase k)
            (require_authorized-IsAuthorized a (required_role field)
              metadata_update_update_metadata_field auth),
        (
          field,
          meta,
          l1,
          to_field-Names to_lowercase k,
          read,
          raised mint meta field value l l1 now,
          wrote,
        ),
      )
