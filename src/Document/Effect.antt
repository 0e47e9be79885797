-- ===== src/Document/Effect.antt =====
-- What setting a document does to its account: the contents, the size and the lamports.
use asseto_solana_programs.Prelude.{
  ℕ, ◌<◌, ◌≡◌, ◌≢◌, if◌then◌else◌, refl, ap, sym, subst, ◌∙◌, inl, inr, Bool, true, false, not,
  arith, ◌==◌, ==_iff, Bytes, length, Bool-cases,
}
use asseto_solana_programs.Errors.{document, empty_uri, ok, require, >>=-eq-ok, >>-eq-ok, ok_inj}
use asseto_solana_programs.Common.ProgramIds.{Pubkey, document_program_id}
use asseto_solana_programs.Common.State.{AccountInfo, empty, loaded, unreadable, data_is_empty}
use asseto_solana_programs.Common.Guards.{
  AssetAccounts, require_role, require_functionality, require_not_paused,
}
use asseto_solana_programs.Common.Authorized.{IsAuthorized}
use asseto_solana_programs.Common.System.{SystemProgram, SystemLaws}
use asseto_solana_programs.Common.PdaUtils.{create_or_adopt_pda, resize_pda}
use asseto_solana_programs.Common.PdaUtils.Laws.{
  Conserves, resize_pda-IsSized, resize_pda_same, create_or_adopt_pda-IsSized,
}
use asseto_solana_programs.Common.Roles.{role_document_manager}
use asseto_solana_programs.Common.Functionalities.{document_set_document}
use asseto_solana_programs.Document.{
  Document, space, require_manager, SetDocument, new_document, updated_document, set_document,
}

-- What a document says, its mint and bump kept if it was there.
pub record Says (s : SetDocument) (before : AccountInfo Document) (d : Document) : Type 0 where
  pub name : d.name ≡ s.name
  pub uri : d.uri ≡ s.uri
  pub document_hash : d.document_hash ≡ s.document_hash
  pub fresh : data_is_empty before ≡ true → (d.mint ≡ s.mint) × (d.bump ≡ s.bump)
  pub kept : (old : Document) → before ≡ loaded old → (d.mint ≡ old.mint) × (d.bump ≡ old.bump)

empty_apart : (d : Document) → empty ≡ loaded d → ⊥
empty_apart d h = cc

clash : {b : Bool} → b ≡ true → b ≡ false → ⊥
clash h k = cc

false_apart : false ≡ true → ⊥
false_apart h = cc

loaded_inj : {c d : Document} → loaded c ≡ loaded d → c ≡ d
loaded_inj h = cc

module _ (sys : SystemProgram) where
  -- An account as the System program knows it: no data, or the size of its document.
  abbrev pub HasSize : Pubkey → AccountInfo Document → sys.Accounts → Type 0
  HasSize key empty l = sys.data_len l key ≡ 0
  HasSize key (loaded d) l = sys.data_len l key ≡ space (length d.uri)
  HasSize key (unreadable _) l = ⊥

  -- Just the rent of a size that the account did not have; else the lamports that it had.
  abbrev pub IsFunded : Pubkey → ℕ → sys.Accounts → sys.Accounts → Type 0
  IsFunded key size l l' =
      sys.lamports l' key
      ≡ (if size == sys.data_len l key then sys.lamports l key else sys.minimum_balance size)

  nonempty :
      (uri : Bytes) → require (not (length uri == 0)) (document empty_uri) ≡ ok tt → 0 < length uri
  nonempty uri h = ground (arith, h)

  module _ (laws : SystemLaws sys) (a : AssetAccounts) (s : SetDocument)
      (apart : s.document_pda ≢ s.payer) where
    require_manager-IsAuthorized :
        require_manager a document_set_document ≡ ok tt
        → IsAuthorized a role_document_manager document_set_document
    unfolding require_manager
    require_manager-IsAuthorized h =
        let (role, h1) =
          >>-eq-ok (require_role a.authority_roles_pda role_document_manager) _ {b = tt} h in
        let (enabled, h2) =
          >>-eq-ok (require_functionality a.asset_class_version_pda document_set_document) _
            {b = tt} h1 in
        let (unpaused, active) = >>-eq-ok (require_not_paused a.mint) _ {b = tt} h2 in
        (role, unpaused, active, enabled)

    abbrev pub Effect : AccountInfo Document → sys.Accounts → Document → sys.Accounts → Type 0
    Effect before l d l' =
        IsAuthorized a role_document_manager document_set_document
        × (0 < length s.uri)
        × Says s before d
        × (sys.data_len l' s.document_pda ≡ space (length s.uri))
        × IsFunded s.document_pda (space (length s.uri)) l l'
        × Conserves sys laws s.payer s.document_pda apart l l'

    new-Says : Says s empty (new_document s)
    new-Says = record {
      name = refl;
      uri = refl;
      document_hash = refl;
      fresh = λ _. (refl, refl);
      kept = λ old e. absurd (empty_apart old e);
    }

    updated-Says : (old : Document) → Says s (loaded old) (updated_document s old)
    updated-Says old = record {
      name = refl;
      uri = refl;
      document_hash = refl;
      fresh = λ e. absurd (false_apart e);
      kept = λ other e. let same = loaded_inj e in (ap (λ x. x.mint) same, ap (λ x. x.bump) same);
    }

    -- Resized, or left because it has the size.
    resized_either :
        (l : sys.Accounts) {l' : sys.Accounts}
        → resize_pda sys s.payer s.document_pda (space (length s.uri)) l ≡ ok l'
        → (sys.data_len l' s.document_pda ≡ space (length s.uri))
          × IsFunded s.document_pda (space (length s.uri)) l l'
          × Conserves sys laws s.payer s.document_pda apart l l'
    resized_either l {l'} h =
        elim (Bool-cases (space (length s.uri) == sys.data_len l s.document_pda)) [
          | inl hit ↦
              let e : space (length s.uri) ≡ sys.data_len l s.document_pda = (==_iff _ _).0 hit in
              let same =
                resize_pda_same sys laws s.payer s.document_pda apart (space (length s.uri)) l e
                  h in
              (
                ap (λ x. sys.data_len x s.document_pda) (sym same) ∙ sym e,
                rw hit (ap (λ x. sys.lamports x s.document_pda) (sym same)),
                subst (Conserves sys laws s.payer s.document_pda apart l) same refl,
              )
          | inr miss ↦
              let other : space (length s.uri) ≢ sys.data_len l s.document_pda =
                λ e. absurd (clash ((==_iff _ _).1 e) miss) in
              let (len, rent, kept) =
                resize_pda-IsSized sys laws s.payer s.document_pda apart (space (length s.uri)) l
                  other h in
              (len, rw miss rent, kept)
        ]

    -- Under SystemLaws and with a payer other than the document's account, setting a document that
    -- succeeds, on an account without data or with the size of its document, is by an account with the
    -- document manager's role, on an asset that supports it, is not paused and is active, with a URI
    -- that is not empty. The account then says what the arguments say, its mint and bump kept if it
    -- was there, and has the size of the document. Its lamports are just the rent of that size, or
    -- what they were if it had that size before; none are made or lost between it and the payer.
    pub set_document-Effect :
        (before : AccountInfo Document) (l : sys.Accounts) {d : Document} {l' : sys.Accounts}
        → HasSize s.document_pda before l
        → set_document sys a s before l ≡ ok (d, l')
        → Effect before l d l'
    unfolding set_document
    set_document-Effect empty l {d} {l'} none h =
        let out : Document × sys.Accounts = (d, l') in
        let (auth, h1) = >>-eq-ok (require_manager a document_set_document) _ {b = out} h in
        let (full, h2) =
          >>-eq-ok (require (not (length s.uri == 0)) (document empty_uri)) _ {b = out} h1 in
        let (l1, made, w) =
          >>=-eq-ok
            (create_or_adopt_pda sys s.payer s.document_pda document_program_id
              (space (length s.uri)) l)
            _ {b = out} h2 in
        let (len, rent, kept) =
          create_or_adopt_pda-IsSized sys laws s.payer s.document_pda apart document_program_id
            (space (length s.uri)) l none (omega arith) made in
        let other : (space (length s.uri) == sys.data_len l s.document_pda) ≡ false =
          rw none (ground arith) in
        subst (λ p. Effect empty l p.0 p.1) (ok_inj w)
          (
            require_manager-IsAuthorized auth,
            nonempty s.uri full,
            new-Says,
            len,
            rw other rent,
            kept,
          )
    set_document-Effect (loaded old) l {d} {l'} size h =
        let out : Document × sys.Accounts = (d, l') in
        let (auth, h1) = >>-eq-ok (require_manager a document_set_document) _ {b = out} h in
        let (full, h2) =
          >>-eq-ok (require (not (length s.uri == 0)) (document empty_uri)) _ {b = out} h1 in
        let (l1, resized, w) =
          >>=-eq-ok (resize_pda sys s.payer s.document_pda (space (length s.uri)) l) _ {b = out}
            h2 in
        let (len, funded, kept) = resized_either l resized in
        subst (λ p. Effect (loaded old) l p.0 p.1) (ok_inj w)
          (
            require_manager-IsAuthorized auth,
            nonempty s.uri full,
            updated-Says old,
            len,
            funded,
            kept,
          )
    set_document-Effect (unreadable e) l none h = absurd none
