-- ===== src/Document.antt =====
-- programs/document/src: the documents of an asset, each under a name.
pub mod Effect
pub mod Register
mod Tests
use asseto_solana_programs.Prelude.{
  ℕ, ⊤, ◌+◌, ◌≡◌, Bool, true, false, not, List, [], ◌∷◌, ◌==◌, Bytes, length,
}
use asseto_solana_programs.Errors.{document, empty_uri, Result, ok, ◌>>=◌, ◌>>◌, require}
use asseto_solana_programs.Common.ProgramIds.{Pubkey, document_program_id}
use asseto_solana_programs.Common.State.{AccountInfo, empty, loaded, data_is_empty, try_from}
use asseto_solana_programs.Common.Guards.{
  AssetAccounts, require_role, require_functionality, require_not_paused, require_active,
}
use asseto_solana_programs.Common.System.{SystemProgram}
use asseto_solana_programs.Common.PdaUtils.{create_or_adopt_pda, resize_pda}
use asseto_solana_programs.Common.Roles.{role_document_manager}
use asseto_solana_programs.Common.Functionalities.{document_set_document, document_remove_document}

-- A name is the number of its 32 bytes, as a public key is.
pub record Document : Type 0 where
  pub mint : Pubkey
  pub name : ℕ
  pub uri : Bytes
  pub document_hash : Bytes
  pub bump : ℕ

abbrev pub discriminator_len : ℕ
discriminator_len = 8

abbrev pub fixed_space : ℕ
fixed_space = 32 + 32 + 32 + 1

abbrev pub space : ℕ → ℕ
space uri_len = discriminator_len + fixed_space + 4 + uri_len

-- The checks of both instructions.
unfoldable pub require_manager : AssetAccounts → ℕ → Result ⊤
require_manager a functionality = do
  require_role a.authority_roles_pda role_document_manager
  require_functionality a.asset_class_version_pda functionality
  require_not_paused a.mint
  require_active a.deactivate_pda

-- The arguments and the addresses of `set_document`.
pub record SetDocument : Type 0 where
  pub payer : Pubkey
  pub mint : Pubkey
  pub document_pda : Pubkey
  pub bump : ℕ
  pub name : ℕ
  pub uri : Bytes
  pub document_hash : Bytes

abbrev pub new_document : SetDocument → Document
new_document s = record {
  mint = s.mint;
  name = s.name;
  uri = s.uri;
  document_hash = s.document_hash;
  bump = s.bump;
}

-- `..existing_document.into_inner()`: the mint and the bump stay.
abbrev pub updated_document : SetDocument → Document → Document
updated_document s existing_document = record existing_document {
  name = s.name;
  uri = s.uri;
  document_hash = s.document_hash;
}

module _ (sys : SystemProgram) where
  open sys use {Accounts}

  unfoldable pub set_document :
      AssetAccounts → SetDocument → AccountInfo Document → Accounts → Result (Document × Accounts)
  set_document a s document_pda l = do
    require_manager a document_set_document
    require (not (length s.uri == 0)) (document empty_uri)
    elim (data_is_empty document_pda) [
      | true ↦
          create_or_adopt_pda sys s.payer s.document_pda document_program_id (space (length s.uri))
            l
          >>= λ l'. ok (new_document s, l')
      | false ↦ try_from document_pda >>= λ existing_document.
          (resize_pda sys s.payer s.document_pda (space (length s.uri)) l >>= λ l'.
          ok (updated_document s existing_document, l'))
    ]

-- The document that is removed; `close` leaves its account empty.
unfoldable pub remove_document : AssetAccounts → Document → Result (AccountInfo Document)
remove_document a document_pda = do require_manager a document_remove_document; ok AccountInfo.empty
