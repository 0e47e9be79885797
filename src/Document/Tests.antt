-- ===== src/Document/Tests.antt =====
-- A document that is added, replaced by a longer one, and removed.
use asseto_solana_programs.Prelude.{◌≡◌, ◌≢◌, refl, none, some, List, [], ◌∷◌, Bytes, arith, update}
use asseto_solana_programs.Errors.{document, empty_uri, ok, err}
use asseto_solana_programs.Common.Bitmask.{locate, is_set}
use asseto_solana_programs.Common.PdaSeeds.{as_ref, document_seeds}
use asseto_solana_programs.Common.State.{AccountInfo, loaded}
use asseto_solana_programs.Common.Guards.{
  require_role, require_not_paused, require_active, require_functionality, is_functionality_enabled,
}
use asseto_solana_programs.Common.PdaUtils.{settle_rent, resize_pda, create_or_adopt_pda}
use asseto_solana_programs.Common.Examples.{runtime, asset_accounts}
use asseto_solana_programs.Common.SystemExample.{Bank, system, system-SystemLaws, bank}
use asseto_solana_programs.Document.{
  Document, require_manager, SetDocument, set_document, remove_document,
}
use asseto_solana_programs.Document.Effect.{Effect, set_document-Effect}
use asseto_solana_programs.Document.Register.{
  content, Op, put, drop, Documents, apply, apply_all, apply_all-Refines,
}

abbrev named : Bytes → Bytes → Document
named uri hash = record { mint = 7; name = 5; uri = uri; document_hash = hash; bump = 4 }

abbrev request : Bytes → Bytes → SetDocument
request uri hash = record {
  payer = 1;
  mint = 7;
  document_pda = 50;
  bump = 4;
  name = 5;
  uri = uri;
  document_hash = hash;
}

-- 109 bytes for the rest of the account, and 128 lamports more than its size.
abbrev with_short : Bank
with_short = record {
  lamports = update (update bank.lamports 1 762) 50 238;
  data_len = update bank.data_len 50 110;
}

abbrev with_long : Bank
with_long = record {
  lamports = update (update with_short.lamports 1 760) 50 240;
  data_len = update with_short.data_len 50 112;
}

added :
    set_document system asset_accounts (request (97 ∷ []) []) AccountInfo.empty bank
    ≡ ok (named (97 ∷ []) [], with_short)
unfolding set_document require_manager create_or_adopt_pda require_role require_not_paused
    require_active require_functionality is_functionality_enabled is_set locate
added = refl

replaced :
    set_document system asset_accounts
      (request (97 ∷ 98 ∷ 99 ∷ []) [])
      (loaded (named (97 ∷ []) []))
      with_short
    ≡ ok (named (97 ∷ 98 ∷ 99 ∷ []) [], with_long)
unfolding set_document require_manager resize_pda settle_rent require_role require_not_paused
    require_active require_functionality is_functionality_enabled is_set locate
replaced = refl

without_uri :
    set_document system asset_accounts (request [] []) AccountInfo.empty bank
    ≡ err (document empty_uri)
unfolding set_document require_manager require_role require_not_paused require_active
    require_functionality is_functionality_enabled is_set locate
without_uri = refl

apart : (request [] []).document_pda ≢ (request [] []).payer
apart e = absurd (omega (arith, e))

set_document-Effect_example :
    Effect system system-SystemLaws asset_accounts
      (request (97 ∷ 98 ∷ 99 ∷ []) [])
      apart
      (loaded (named (97 ∷ []) []))
      with_short
      (named (97 ∷ 98 ∷ 99 ∷ []) [])
      with_long
set_document-Effect_example =
    set_document-Effect system system-SystemLaws asset_accounts (request (97 ∷ 98 ∷ 99 ∷ []) [])
      apart (loaded (named (97 ∷ []) [])) with_short refl replaced

abbrev empty_register : Documents runtime system 7
empty_register = record { documents = λ _. AccountInfo.empty; accounts = bank }

-- Put under name 5, at the address 875, put again with another hash, and dropped.
abbrev history : List Op
history =
    put asset_accounts 1 4 5 (97 ∷ []) []
    ∷ put asset_accounts 1 4 5 (98 ∷ []) (1 ∷ [])
    ∷ drop asset_accounts 5
    ∷ put asset_accounts 1 4 6 (99 ∷ []) []
    ∷ []

abbrev last : Documents runtime system 7
last = record {
  documents =
      update
        (update
          (update (update empty_register.documents 5 (loaded (named (97 ∷ []) []))) 5
            (loaded (named (98 ∷ []) (1 ∷ []))))
          5 AccountInfo.empty)
        6 (loaded (record (named (99 ∷ []) []) { name = 6 }));
  accounts = record {
    lamports = update (update (update (update bank.lamports 1 762) 875 238) 1 524) 876 238;
    data_len = update (update bank.data_len 875 110) 876 110;
  };
}

performed : apply_all runtime system 7 history empty_register ≡ ok last
unfolding apply_all apply set_document remove_document require_manager create_or_adopt_pda
    resize_pda document_seeds as_ref require_role require_not_paused require_active
    require_functionality is_functionality_enabled is_set locate
performed = refl

apply_all-Refines_example :
    content (last.documents 6) ≡ some (record { uri = 99 ∷ []; document_hash = [] })
apply_all-Refines_example =
    apply_all-Refines runtime system 7 history empty_register (λ _. none) performed (λ k. refl) 6
