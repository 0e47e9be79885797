-- ===== src/Document/Register.antt =====
-- The documents of an asset as a register: a map from names to contents, which the instructions update.
use asseto_solana_programs.Prelude.{
  ℕ, ◌≡◌, ap, sym, ◌∙◌, inl, inr, Option, none, some, List, [], ◌∷◌, arith, ◌==◌, Bytes, update,
  Bool-cases,
}
use asseto_solana_programs.Errors.{Result, ok, ◌>>=◌, >>=-eq-ok, ok_inj}
use asseto_solana_programs.Common.ProgramIds.{Pubkey, document_program_id}
use asseto_solana_programs.Common.PdaSeeds.{Runtime, as_ref, document_seeds}
use asseto_solana_programs.Common.State.{AccountInfo, empty, loaded, unreadable, try_from}
use asseto_solana_programs.Common.Guards.{AssetAccounts}
use asseto_solana_programs.Common.System.{SystemProgram}
use asseto_solana_programs.Document.{Document, SetDocument, set_document, remove_document}

pub record Content : Type 0 where
  pub uri : Bytes
  pub document_hash : Bytes

-- What anyone who reads an account of the program sees of it.
abbrev pub content : AccountInfo Document → Option Content
content empty = none
content (loaded d) = some (record { uri = d.uri; document_hash = d.document_hash })
content (unreadable _) = none

-- One instruction, with the accounts of its signers.
pub data Op : Type 0 where
  put : (a : AssetAccounts) (payer : Pubkey) (bump name : ℕ) (uri document_hash : Bytes) → Op
  drop : (a : AssetAccounts) (name : ℕ) → Op

-- The register's own view of it.
abbrev pub applied : Op → (ℕ → Option Content) → ℕ → Option Content
applied (put a payer bump name uri document_hash) f =
    update f name (some (record { uri = uri; document_hash = document_hash }))
applied (drop a name) f = update f name none

abbrev pub all_applied : List Op → (ℕ → Option Content) → ℕ → Option Content
all_applied [] f = f
all_applied (op ∷ ops) f = all_applied ops (applied op f)

module _ (rt : Runtime) (sys : SystemProgram) (mint : Pubkey) where
  -- The documents of one mint, by the names in their seeds.
  pub record Documents : Type 0 where
    pub documents : ℕ → AccountInfo Document
    pub accounts : sys.Accounts

  abbrev pub arguments : Pubkey → ℕ → ℕ → Bytes → Bytes → SetDocument
  arguments payer bump name uri document_hash = record {
    payer = payer;
    mint = mint;
    document_pda =
        (rt.find_program_address (document_seeds mint (as_ref name)) document_program_id).0;
    bump = bump;
    name = name;
    uri = uri;
    document_hash = document_hash;
  }

  -- An instruction on the account at its seeds; a removal's account is loaded first.
  unfoldable pub apply : Op → Documents → Result Documents
  apply (put a payer bump name uri document_hash) w =
      set_document sys a (arguments payer bump name uri document_hash) (w.documents name) w.accounts
      >>= λ (d, l). ok (record { documents = update w.documents name (loaded d); accounts = l })
  apply (drop a name) w = try_from (w.documents name) >>= λ d.
      (remove_document a d >>= λ pda. ok (record w { documents = update w.documents name pda }))

  unfoldable pub apply_all : List Op → Documents → Result Documents
  apply_all [] w = ok w
  apply_all (op ∷ ops) w = apply op w >>= λ w'. apply_all ops w'

  set_content :
      (a : AssetAccounts) (s : SetDocument) (pda : AccountInfo Document) (l : sys.Accounts)
      {d : Document} {l' : sys.Accounts}
      → set_document sys a s pda l ≡ ok (d, l')
      → content (loaded d) ≡ some (record { uri = s.uri; document_hash = s.document_hash })
  unfolding set_document
  set_content a s empty l {d} {l'} h = ground (arith, h)
  set_content a s (loaded old) l {d} {l'} h = ground (arith, h)
  set_content a s (unreadable e) l {d} {l'} h = ground (arith, h)

  removed_empty :
      (a : AssetAccounts) (d : Document) {pda : AccountInfo Document}
      → remove_document a d ≡ ok pda
      → content pda ≡ none
  unfolding remove_document
  removed_empty a d h = ground (arith, h)

  -- A store that is written at one key, seen through a function.
  seen_update :
      {V : Type 0} {W : Type 0} (see : V → W) (f : ℕ → V) (key : ℕ) (v : V) (g : ℕ → W) (w : W)
      → see v ≡ w
      → ((k : ℕ) → see (f k) ≡ g k)
      → (k : ℕ) → see (update f key v k) ≡ update g key w k
  seen_update see f key v g w new old k = elim (Bool-cases (key == k)) [
    | inl hit ↦ rw hit new
    | inr miss ↦ rw miss (old k)
  ]

  apply-content :
      (op : Op) (w : Documents) (f : ℕ → Option Content) {w' : Documents}
      → apply op w ≡ ok w'
      → ((k : ℕ) → content (w.documents k) ≡ f k)
      → (k : ℕ) → content (w'.documents k) ≡ applied op f k
  unfolding apply
  apply-content (put a payer bump name uri document_hash) w f {w'} h old k =
      let s = arguments payer bump name uri document_hash in
      let ((d, l), set, e) =
        >>=-eq-ok (set_document sys a s (w.documents name) w.accounts) _ {b = w'} h in
      ap (λ x. content (x.documents k)) (sym (ok_inj e))
      ∙ seen_update content w.documents name (loaded d) f
          (some (record { uri = uri; document_hash = document_hash }))
          (set_content a s (w.documents name) w.accounts set) old k
  apply-content (drop a name) w f {w'} h old k =
      let (d, _, h1) = >>=-eq-ok (try_from (w.documents name)) _ {b = w'} h in
      let (pda, removed, e) = >>=-eq-ok (remove_document a d) _ {b = w'} h1 in
      ap (λ x. content (x.documents k)) (sym (ok_inj e))
      ∙ seen_update content w.documents name pda f none (removed_empty a d removed) old k

  -- After any sequence of instructions that succeed, the contents of all documents are those of a map from
  -- names to contents that was updated in the same order: the last content set under a name and not
  -- removed since.
  pub apply_all-Refines :
      (ops : List Op) (w : Documents) (f : ℕ → Option Content) {w' : Documents}
      → apply_all ops w ≡ ok w'
      → ((k : ℕ) → content (w.documents k) ≡ f k)
      → (k : ℕ) → content (w'.documents k) ≡ all_applied ops f k
  unfolding apply_all
  apply_all-Refines [] w f h old k = ap (λ x. content (x.documents k)) (sym (ok_inj h)) ∙ old k
  apply_all-Refines (op ∷ ops) w f {w'} h old k =
      let (w1, first, rest) = >>=-eq-ok (apply op w) (λ x. apply_all ops x) {b = w'} h in
      apply_all-Refines ops w1 (applied op f) rest (apply-content op w f first old) k
