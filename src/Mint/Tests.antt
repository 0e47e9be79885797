-- ===== src/Mint/Tests.antt =====
-- Issuing to concrete accounts under a cap of 120.
use asseto_solana_programs.Prelude.{ℕ, ◌+◌, ◌≡◌, refl, ap, sym, ◌∙◌, ◌↔◌, List, [], ◌∷◌, update}
use asseto_solana_programs.Errors.{ok, ok_inj}
use asseto_solana_programs.Common.Bitmask.{locate, is_set}
use asseto_solana_programs.Common.ProgramIds.{transfer_control_program_id}
use asseto_solana_programs.Common.PdaSeeds.{control_list_seeds, mint_authority_seeds, as_ref}
use asseto_solana_programs.Common.State.{empty, loaded}
use asseto_solana_programs.Common.Guards.{
  require_role, require_active, require_functionality, is_functionality_enabled,
  verify_control_list_pda,
}
use asseto_solana_programs.Common.Roles.{role_issuer}
use asseto_solana_programs.Common.Examples.{
  runtime, version, mint_state, asset_accounts, token_program, Book, book,
}
use asseto_solana_programs.TransferControl.{verify_transfer_control_mode}
use asseto_solana_programs.Cap.{MaxSupply, require_within_max_supply, require_supply_below}
use asseto_solana_programs.Cap.Laws.{Permits}
use asseto_solana_programs.Mint.{
  RemainingAccount, batch_total, mint_authority, mint_tokens, control_list_pdas, mint_all,
  batch_mint,
}
use asseto_solana_programs.Mint.Laws.{sum, check_total, check_each, check_total-check_each}
use asseto_solana_programs.Mint.Supply.{MintLaws, HasSupply, batch_mint_supply}

abbrev cap : MaxSupply
cap = record { bump = 4; max_supply = 120 }

check_total-check_each_example :
    (check_total (mint_state 100) cap version (5 ∷ 15 ∷ []) ≡ ok tt)
    ↔ (check_each (mint_state 100) cap version (5 ∷ 15 ∷ []) ≡ ok tt)
check_total-check_each_example = check_total-check_each (mint_state 100) cap version (5 ∷ 15 ∷ [])

mint_laws : MintLaws token_program
mint_laws = record {
  mint_to_adds = λ mint destination authority amount b {ledger' = b'} s minted unpacks. (
    mint_state b'.supply,
    refl,
    ap (λ q. q.supply) (sym (ok_inj minted)) ∙ ap (λ n. n.supply + amount) (ok_inj unpacks),
  );
}

abbrev control_list_pda : ℕ → ℕ
control_list_pda destination =
    (runtime.find_program_address (control_list_seeds 7 destination) transfer_control_program_id).0

abbrev remaining : List RemainingAccount
remaining =
    record { key = 20; as_control_list = empty }
    ∷ record { key = control_list_pda 20; as_control_list = empty }
    ∷ record { key = 21; as_control_list = empty }
    ∷ record { key = control_list_pda 21; as_control_list = empty }
    ∷ []

abbrev issued : Book
issued = record { supply = 70; balance = update (update (λ k. 0) 20 50) 21 20 }

abbrev batch_issued : Book
batch_issued = record { supply = 70; balance = update (update (update (λ k. 0) 20 50) 20 55) 21 15 }

minted_one :
    mint_tokens runtime token_program 7 asset_accounts empty empty (loaded cap) 21 20 book
    ≡ ok issued
unfolding mint_tokens mint_authority mint_authority_seeds as_ref require_within_max_supply
    require_supply_below verify_transfer_control_mode require_role require_active
    require_functionality is_functionality_enabled is_set locate
minted_one = refl

minted_batch :
    batch_mint runtime token_program 7 asset_accounts empty
      (loaded cap)
      (5 ∷ 15 ∷ [])
      remaining
      book
    ≡ ok batch_issued
unfolding batch_mint batch_total mint_all control_list_pdas verify_control_list_pda
    control_list_seeds mint_authority mint_authority_seeds as_ref require_within_max_supply
    require_supply_below verify_transfer_control_mode require_role require_active
    require_functionality is_functionality_enabled is_set locate
minted_batch = refl

batch_mint_supply_example :
    (require_role asset_accounts.authority_roles_pda role_issuer ≡ ok tt)
    × Permits (ok (mint_state 50)) (loaded cap) version (sum (5 ∷ 15 ∷ []))
    × HasSupply (ok (mint_state 70)) (50 + sum (5 ∷ 15 ∷ []))
batch_mint_supply_example =
    batch_mint_supply runtime token_program mint_laws 7 asset_accounts empty (loaded cap)
      (5 ∷ 15 ∷ []) remaining 50 book minted_batch (mint_state 50, refl, refl)
