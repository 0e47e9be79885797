-- ===== src/MetadataUpdate.antt =====
-- programs/metadata-update/src: the metadata that a mint carries, field by field.
pub mod Size
pub mod Funding
mod Tests
use asseto_solana_programs.Prelude.{
  ℕ, ⊤, ◌+◌, ◌-◌, Bool, true, false, Option, none, some, List, [], ◌∷◌, Bytes, length, ltb,
  saturating_sub, if◌then◌else◌,
}
use asseto_solana_programs.Errors.{Result, ok, ◌>>=◌, ◌>>◌}
use asseto_solana_programs.Common.ProgramIds.{Pubkey, metadata_update_program_id}
use asseto_solana_programs.Common.PdaSeeds.{Runtime, codes, metadata_update_authority_seeds}
use asseto_solana_programs.Common.Guards.{AssetAccounts, require_authorized}
use asseto_solana_programs.Common.Merkle.{bytes_eq}
use asseto_solana_programs.Common.System.{SystemProgram}
use asseto_solana_programs.Common.Roles.{role_admin, role_custom_data_manager}
use asseto_solana_programs.Common.Functionalities.{
  metadata_update_update_metadata_field, metadata_update_remove_metadata_field,
}

-- `spl_token_metadata_interface::state`: a string is its UTF-8 bytes.
pub record TokenMetadata : Type 0 where
  pub name : Bytes
  pub symbol : Bytes
  pub uri : Bytes
  pub additional_metadata : List (Bytes × Bytes)

pub data Field : Type 0 where
  name symbol uri : Field
  key : Bytes → Field

-- The argument is `str::to_lowercase` of the standard library.
unfoldable pub to_field : (Bytes → Bytes) → Bytes → Field
to_field to_lowercase k =
    let lower = to_lowercase k in
    if bytes_eq lower (codes "name")
    then Field.name
    else if bytes_eq lower (codes "symbol")
    then Field.symbol
    else if bytes_eq lower (codes "uri")
    then Field.uri
    else Field.key k

abbrev pub pairs_size : List (Bytes × Bytes) → ℕ
pairs_size [] = 0
pairs_size ((k, v) ∷ rest) = 4 + length k + 4 + length v + pairs_size rest

unfoldable pub packed_meta_size : TokenMetadata → ℕ
packed_meta_size meta =
    32
    + 32
    + 4
    + length meta.name
    + 4
    + length meta.symbol
    + 4
    + length meta.uri
    + 4
    + pairs_size meta.additional_metadata

abbrev pub find : Bytes → List (Bytes × Bytes) → Option Bytes
find k [] = none
find k ((k', v) ∷ rest) = if bytes_eq k' k then some v else find k rest

unfoldable pub new_packed_meta_size : TokenMetadata → Field → Bytes → ℕ
unfolding packed_meta_size
new_packed_meta_size meta Field.name new_value =
    packed_meta_size meta - length meta.name + length new_value
new_packed_meta_size meta Field.symbol new_value =
    packed_meta_size meta - length meta.symbol + length new_value
new_packed_meta_size meta Field.uri new_value =
    packed_meta_size meta - length meta.uri + length new_value
new_packed_meta_size meta (Field.key k) new_value = elim (find k meta.additional_metadata) [
  | some old_val ↦ packed_meta_size meta - length old_val + length new_value
  | none ↦ packed_meta_size meta + 4 + length k + 4 + length new_value
]

unfoldable pub required_role : Field → ℕ
required_role Field.name = role_admin
required_role Field.symbol = role_admin
required_role Field.uri = role_custom_data_manager
required_role (Field.key _) = role_custom_data_manager

-- The token metadata interface of Token-2022, over the accounts of the System program.
pub record MetadataProgram (sys : SystemProgram) : Type 0 where
  -- what `get_variable_len_extension` finds in the mint
  pub metadata : Pubkey → sys.Accounts → Result TokenMetadata
  -- mint, update authority
  pub update_field : Pubkey → Pubkey → Field → Bytes → sys.Accounts → Result sys.Accounts
  -- mint, update authority, key, idempotent
  pub remove_key : Pubkey → Pubkey → Bytes → Bool → sys.Accounts → Result sys.Accounts

unfoldable pub metadata_update_authority : Runtime → Pubkey → Pubkey
metadata_update_authority rt mint =
    (rt.find_program_address (metadata_update_authority_seeds mint) metadata_update_program_id).0

module _ (rt : Runtime) (sys : SystemProgram) (mp : MetadataProgram sys)
    (to_lowercase : Bytes → Bytes) where
  open sys use {Accounts, lamports, data_len, minimum_balance, transfer}
  open mp use {metadata, update_field, remove_key}

  -- The rent that a longer field needs and the mint does not have.
  unfoldable pub additional_lamports : Pubkey → TokenMetadata → Field → Bytes → Accounts → ℕ
  unfolding new_packed_meta_size packed_meta_size
  additional_lamports mint meta field value l =
      let old_size = packed_meta_size meta in
      let new_size = new_packed_meta_size meta field value in
      if ltb old_size new_size
      then saturating_sub (minimum_balance (data_len l mint + new_size - old_size))
          (lamports l mint)
      else 0

  unfoldable pub pay_rent : Pubkey → Pubkey → ℕ → Accounts → Result Accounts
  pay_rent payer mint amount l = elim (ltb 0 amount) [
    | true ↦ transfer payer mint amount l
    | false ↦ ok l
  ]

  unfoldable pub update_metadata_field :
      AssetAccounts → Pubkey → Pubkey → Bytes → Bytes → Accounts → Result Accounts
  unfolding to_field required_role metadata_update_authority additional_lamports pay_rent
  update_metadata_field a payer mint k value l = do
    let field = to_field to_lowercase k
    require_authorized a (required_role field) metadata_update_update_metadata_field
    meta ← metadata mint l
    l1 ← pay_rent payer mint (additional_lamports mint meta field value l) l
    update_field mint (metadata_update_authority rt mint) field value l1

  unfoldable pub remove_metadata_field :
      AssetAccounts → Pubkey → Bytes → Bool → Accounts → Result Accounts
  unfolding metadata_update_authority
  remove_metadata_field a mint k idempotent l = do
    require_authorized a role_custom_data_manager metadata_update_remove_metadata_field
    remove_key mint (metadata_update_authority rt mint) k idempotent l
