-- ===== src/MetadataUpdate/Tests.antt =====
-- A longer custom field, on a mint that holds just the rent of its old metadata.
use asseto_solana_programs.Prelude.{ℕ, ◌≡◌, ◌≢◌, refl, [], ◌∷◌, arith, Bytes, update}
use asseto_solana_programs.Errors.{ok}
use asseto_solana_programs.Common.Bitmask.{locate, is_set}
use asseto_solana_programs.Common.Guards.{
  require_role, require_not_paused, require_active, require_functionality, is_functionality_enabled,
  require_authorized,
}
use asseto_solana_programs.Common.Authorized.{IsAuthorized}
use asseto_solana_programs.Common.Merkle.{bytes_eq}
use asseto_solana_programs.Common.Functionalities.{metadata_update_update_metadata_field}
use asseto_solana_programs.Common.Examples.{runtime, asset_accounts}
use asseto_solana_programs.Common.SystemExample.{Bank, system, system-SystemLaws}
use asseto_solana_programs.MetadataUpdate.{
  TokenMetadata, Field, to_field, packed_meta_size, new_packed_meta_size, required_role,
  MetadataProgram, metadata_update_authority, additional_lamports, pay_rent, update_metadata_field,
}
use asseto_solana_programs.MetadataUpdate.Size.{updated, new_packed_meta_size-updated}
use asseto_solana_programs.MetadataUpdate.Funding.{
  editor, Names, IsFunded, update_metadata_field-IsFunded,
}

abbrev isin : Bytes
isin = 105 ∷ 115 ∷ []

abbrev before : TokenMetadata
before = record {
  name = 65 ∷ [];
  symbol = 66 ∷ [];
  uri = [];
  additional_metadata = (isin, 49 ∷ []) ∷ [];
}

-- Metadata that does not change in the ledger of the test.
abbrev program : MetadataProgram system
program = record {
  metadata = λ mint l. ok before;
  update_field = λ mint authority field value l. ok l;
  remove_key = λ mint authority k idempotent l. ok l;
}

abbrev same_case : Bytes → Bytes
same_case k = k

-- 300 bytes, and the 428 lamports that they ask for.
abbrev funded : Bank
funded = record {
  lamports = update (update (λ k. 0) 1 1000) 7 428;
  data_len = update (λ k. 0) 7 300;
}

abbrev topped_up : Bank
topped_up = record {
  lamports = update (update funded.lamports 1 998) 7 430;
  data_len = funded.data_len;
}

new_packed_meta_size-updated_example :
    new_packed_meta_size before (Field.key isin) (49 ∷ 50 ∷ 51 ∷ [])
    ≡ packed_meta_size (updated before (Field.key isin) (49 ∷ 50 ∷ 51 ∷ []))
new_packed_meta_size-updated_example =
    new_packed_meta_size-updated before (Field.key isin) (49 ∷ 50 ∷ 51 ∷ [])

written :
    update_metadata_field runtime system program same_case asset_accounts 1 7 isin
      (49 ∷ 50 ∷ 51 ∷ [])
      funded
    ≡ ok topped_up
unfolding update_metadata_field to_field required_role additional_lamports pay_rent
    new_packed_meta_size packed_meta_size metadata_update_authority bytes_eq require_authorized
    require_role require_not_paused require_active require_functionality is_functionality_enabled
    is_set locate
written = refl

apart : (the_mint payer : ℕ) → the_mint ≡ 7 → payer ≡ 1 → the_mint ≢ payer
apart the_mint payer a b e = absurd (omega (arith, a, b, e))

update_metadata_field-IsFunded_example :
    IsAuthorized asset_accounts (editor same_case isin) metadata_update_update_metadata_field
    × ((field : Field) × (meta : TokenMetadata) × (l1 : Bank) × Names same_case isin field
        × (ok before ≡ ok meta)
        × IsFunded runtime system program same_case 7 meta
            (updated meta field (49 ∷ 50 ∷ 51 ∷ []))
            funded
            l1
        × (ok l1 ≡ ok topped_up))
update_metadata_field-IsFunded_example =
    update_metadata_field-IsFunded runtime system program same_case system-SystemLaws asset_accounts
      1 7 isin (49 ∷ 50 ∷ 51 ∷ []) funded (apart 7 1 refl refl) written
