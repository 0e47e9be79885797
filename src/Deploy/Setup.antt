-- ===== src/Deploy/Setup.antt =====
-- What the instructions of Token-2022 leave of a mint, and the mint that the program sets up by them.
use asseto_solana_programs.Prelude.{ℕ, ◌≡◌, refl, ap, sym, Option, none, some, List, [], ◌∷◌, Bytes}
use asseto_solana_programs.Errors.{ok, >>=-eq-ok, ok_inj}
use asseto_solana_programs.Common.ProgramIds.{Pubkey, transfer_hook_program_id}
use asseto_solana_programs.Common.System.{SystemProgram}
use asseto_solana_programs.MetadataUpdate.{TokenMetadata, Field}
use asseto_solana_programs.MetadataUpdate.Size.{updated}
use asseto_solana_programs.Deploy.Token.{MintSetup}
use asseto_solana_programs.Deploy.{
  MetadataField, DeployMintParams, Authorities, initialize_extensions, write_fields,
}

-- A mint with its extensions.
pub record MintConfig : Type 0 where
  pub metadata_pointer_authority : Option Pubkey
  pub metadata_address : Option Pubkey
  pub permanent_delegate : Pubkey
  pub permissioned_burn_authority : Pubkey
  pub pausable_authority : Pubkey
  pub transfer_hook_authority : Option Pubkey
  pub transfer_hook_program : Option Pubkey
  pub mint_authority : Option Pubkey
  pub freeze_authority : Option Pubkey
  pub decimals : ℕ
  pub update_authority : Option Pubkey
  pub metadata : TokenMetadata

-- What is documented of each instruction: the fields that it writes, and that it writes no other.
pub record MintSetupLaws (sys : SystemProgram) (ms : MintSetup sys)
    (config : sys.Accounts → Pubkey → MintConfig) : Type 0 where
  pub metadata_pointer_law :
      (mint : Pubkey) (authority address : Option Pubkey) (l : sys.Accounts) {l' : sys.Accounts}
      → ms.initialize_metadata_pointer mint authority address l ≡ ok l'
      → config l' mint ≡ record (config l mint) {
        metadata_pointer_authority = authority;
        metadata_address = address;
      }
  pub permanent_delegate_law :
      (mint delegate : Pubkey) (l : sys.Accounts) {l' : sys.Accounts}
      → ms.initialize_permanent_delegate mint delegate l ≡ ok l'
      → config l' mint ≡ record (config l mint) { permanent_delegate = delegate }
  pub permissioned_burn_law :
      (mint authority : Pubkey) (l : sys.Accounts) {l' : sys.Accounts}
      → ms.initialize_permissioned_burn mint authority l ≡ ok l'
      → config l' mint ≡ record (config l mint) { permissioned_burn_authority = authority }
  pub pausable_law :
      (mint authority : Pubkey) (l : sys.Accounts) {l' : sys.Accounts}
      → ms.initialize_pausable mint authority l ≡ ok l'
      → config l' mint ≡ record (config l mint) { pausable_authority = authority }
  pub transfer_hook_law :
      (mint : Pubkey) (authority program : Option Pubkey) (l : sys.Accounts) {l' : sys.Accounts}
      → ms.initialize_transfer_hook mint authority program l ≡ ok l'
      → config l' mint ≡ record (config l mint) {
        transfer_hook_authority = authority;
        transfer_hook_program = program;
      }
  pub mint2_law :
      (mint authority : Pubkey) (freeze : Option Pubkey) (decimals : ℕ) (l : sys.Accounts)
      {l' : sys.Accounts}
      → ms.initialize_mint2 mint authority freeze decimals l ≡ ok l'
      → config l' mint ≡ record (config l mint) {
        mint_authority = some authority;
        freeze_authority = freeze;
        decimals = decimals;
      }
  pub token_metadata_law :
      (mint authority mint_authority : Pubkey) (name symbol uri : Bytes) (l : sys.Accounts)
      {l' : sys.Accounts}
      → ms.initialize_token_metadata mint authority mint mint_authority name symbol uri l ≡ ok l'
      → config l' mint ≡ record (config l mint) {
        update_authority = some authority;
        metadata = record { name = name; symbol = symbol; uri = uri; additional_metadata = [] };
      }
  pub update_field_law :
      (mint authority : Pubkey) (field : Field) (value : Bytes) (l : sys.Accounts)
      {l' : sys.Accounts}
      → ms.update_field mint authority field value l ≡ ok l'
      → config l' mint
        ≡ record (config l mint) { metadata = updated (config l mint).metadata field value }
  pub update_authority_law :
      (mint current : Pubkey) (new : Option Pubkey) (l : sys.Accounts) {l' : sys.Accounts}
      → ms.update_authority mint current new l ≡ ok l'
      → config l' mint ≡ record (config l mint) { update_authority = new }
  pub set_authority_law :
      (mint : Pubkey) (new : Option Pubkey) (current : Pubkey) (l : sys.Accounts)
      {l' : sys.Accounts}
      → ms.set_authority_mint_tokens mint new current l ≡ ok l'
      → config l' mint ≡ record (config l mint) { mint_authority = new }

-- The metadata after the custom fields are written, in their order.
abbrev pub with_fields : List MetadataField → TokenMetadata → TokenMetadata
with_fields [] m = m
with_fields (f ∷ fs) m = with_fields fs (updated m (Field.key f.key) f.value)

-- The mint that the program means to leave: no freeze authority, a pointer that nobody can move, and
-- each authority the address of the program in charge.
abbrev pub expected : Authorities → Pubkey → DeployMintParams → MintConfig
expected auth mint params = record {
  metadata_pointer_authority = none;
  metadata_address = some mint;
  permanent_delegate = auth.permanent_delegate_authority;
  permissioned_burn_authority = auth.permissioned_burn_authority;
  pausable_authority = auth.pausable_authority;
  transfer_hook_authority = some auth.transfer_hook_authority;
  transfer_hook_program = some transfer_hook_program_id;
  mint_authority = some auth.mint_authority;
  freeze_authority = none;
  decimals = params.decimals;
  update_authority = some auth.metadata_update_authority;
  metadata = with_fields params.additional_metadata (record {
    name = params.name;
    symbol = params.symbol;
    uri = params.uri;
    additional_metadata = [];
  });
}

module _ (sys : SystemProgram) (ms : MintSetup sys) (config : sys.Accounts → Pubkey → MintConfig)
    (laws : MintSetupLaws sys ms config) (auth : Authorities) (mint : Pubkey) where
  unfoldable pub extended : MintConfig → MintConfig
  extended c = record c {
    metadata_pointer_authority = none;
    metadata_address = some mint;
    permanent_delegate = auth.permanent_delegate_authority;
    permissioned_burn_authority = auth.permissioned_burn_authority;
    pausable_authority = auth.pausable_authority;
    transfer_hook_authority = some auth.transfer_hook_authority;
    transfer_hook_program = some transfer_hook_program_id;
  }

  pub initialize_extensions_lem :
      (l : sys.Accounts) {l' : sys.Accounts}
      → initialize_extensions sys ms auth mint l ≡ ok l'
      → config l' mint ≡ extended (config l mint)
  unfolding initialize_extensions extended
  initialize_extensions_lem l {l'} h =
      let (l1, a1, h1) =
        >>=-eq-ok (ms.initialize_metadata_pointer mint none (some mint) l) _ {b = l'} h in
      let (l2, a2, h2) =
        >>=-eq-ok (ms.initialize_permanent_delegate mint auth.permanent_delegate_authority l1) _
          {b = l'} h1 in
      let (l3, a3, h3) =
        >>=-eq-ok (ms.initialize_permissioned_burn mint auth.permissioned_burn_authority l2) _
          {b = l'} h2 in
      let (l4, a4, h4) =
        >>=-eq-ok (ms.initialize_pausable mint auth.pausable_authority l3) _ {b = l'} h3 in
      let e1 = laws.metadata_pointer_law mint none (some mint) l a1 in
      let e2 = laws.permanent_delegate_law mint auth.permanent_delegate_authority l1 a2 in
      let e3 = laws.permissioned_burn_law mint auth.permissioned_burn_authority l2 a3 in
      let e4 = laws.pausable_law mint auth.pausable_authority l3 a4 in
      let e5 =
        laws.transfer_hook_law mint (some auth.transfer_hook_authority)
          (some transfer_hook_program_id) l4 h4 in
      rw (e5, e4, e3, e2, e1) refl

  pub write_fields_lem :
      (fs : List MetadataField) (l : sys.Accounts) {l' : sys.Accounts}
      → write_fields sys ms auth mint fs l ≡ ok l'
      → config l' mint
        ≡ record (config l mint) { metadata = with_fields fs (config l mint).metadata }
  unfolding write_fields
  write_fields_lem [] l h = ap (λ x. config x mint) (sym (ok_inj h))
  write_fields_lem (f ∷ fs) l {l'} h =
      let (l1, a1, h1) =
        >>=-eq-ok (ms.update_field mint auth.temp_mint_authority (Field.key f.key) f.value l)
          (λ x. write_fields sys ms auth mint fs x) {b = l'} h in
      let e1 = laws.update_field_law mint auth.temp_mint_authority (Field.key f.key) f.value l a1 in
      rw (write_fields_lem fs l1 h1, e1) refl
