-- ===== src/Mint/Supply.antt =====
-- What issuing does to the supply, and the supply cap as an invariant.
use asseto_solana_programs.Prelude.{
  ℕ, ◌+◌, ◌*◌, ◌≡◌, ap, sym, ◌∙◌, not, List, [], ◌∷◌, arith, length, ◌==◌,
}
use asseto_solana_programs.Errors.{
  mint as mint_error, MintError, amount_overflow, Result, ok, require, ok_or, >>=-eq-ok, >>-eq-ok,
  ok_inj,
}
use asseto_solana_programs.Common.ProgramIds.{Pubkey}
use asseto_solana_programs.Common.PdaSeeds.{Runtime}
use asseto_solana_programs.Common.State.{AccountInfo, MintState}
use asseto_solana_programs.Common.Guards.{
  AssetAccounts, require_role, require_active, require_functionality,
}
use asseto_solana_programs.Common.Roles.{role_issuer}
use asseto_solana_programs.Common.Functionalities.{mint_mint}
use asseto_solana_programs.Common.Token.{TokenProgram}
use asseto_solana_programs.TransferControl.{
  TransferControlMode, ControlListStatus, verify_transfer_control_mode,
}
use asseto_solana_programs.TransferControl.Laws.{Complies, verify_transfer_control_mode-Complies}
use asseto_solana_programs.Cap.{MaxSupply, require_within_max_supply}
use asseto_solana_programs.Cap.Laws.{Permits, require_within_max_supply-Permits}
use asseto_solana_programs.Mint.{
  RemainingAccount, batch_total, mint_authority, mint_tokens, control_list_pdas, mint_all,
  batch_mint,
}
use asseto_solana_programs.Mint.Laws.{sum, batch_total-sum}

-- What Token-2022 documents of `mint_to`: the supply grows by the amount.
pub record MintLaws (tp : TokenProgram) : Type 0 where
  pub mint_to_adds :
      (mint destination authority : Pubkey) (amount : ℕ) (ledger : tp.Ledger) {ledger' : tp.Ledger}
      (s : MintState)
      → tp.mint_to mint destination authority amount ledger ≡ ok ledger'
      → tp.mint_state mint ledger ≡ ok s
      → (s' : MintState) × (tp.mint_state mint ledger' ≡ ok s') × (s'.supply ≡ s.supply + amount)

-- The mint has `supply` tokens.
abbrev pub HasSupply : Result MintState → ℕ → Type 0
HasSupply mint_account supply = (s : MintState) × (mint_account ≡ ok s) × (s.supply ≡ supply)

total_of :
    (amounts : List ℕ) {total : ℕ}
    → ok_or (batch_total 0 amounts) (mint_error amount_overflow) ≡ ok total
    → total ≡ sum amounts
total_of amounts {total} h =
    let added = batch_total-sum 0 amounts {total = total} (ground (arith, h)) in
    omega (arith, added)

same_length :
    (n m : ℕ) → require (n == m) (mint_error MintError.invalid_remaining_accounts) ≡ ok tt → n ≡ m
same_length n m h = ground arith

module _ (rt : Runtime) (tp : TokenProgram) (laws : MintLaws tp) (mint : Pubkey) where
  open tp use {Ledger, mint_state, mint_to}

  minted :
      (destination authority : Pubkey) (amount supply : ℕ) (ledger : Ledger) {ledger' : Ledger}
      → mint_to mint destination authority amount ledger ≡ ok ledger'
      → HasSupply (mint_state mint ledger) supply
      → HasSupply (mint_state mint ledger') (supply + amount)
  minted destination authority amount supply ledger h (s, unpacks, e) =
      let (s', unpacks', grown) =
        laws.mint_to_adds mint destination authority amount ledger s h unpacks in
      (s', unpacks', omega (arith, grown, e))

  mint_all_supply :
      (amounts : List ℕ) (remaining : List RemainingAccount) (supply : ℕ) (ledger : Ledger)
      {ledger' : Ledger}
      → length remaining ≡ length amounts * 2
      → mint_all rt tp mint amounts remaining ledger ≡ ok ledger'
      → HasSupply (mint_state mint ledger) supply
      → HasSupply (mint_state mint ledger') (supply + sum amounts)
  unfolding mint_all
  mint_all_supply [] remaining supply ledger n h (s, unpacks, e) =
      (s, ap (mint_state mint) (sym (ok_inj h)) ∙ unpacks, omega (arith, e))
  mint_all_supply (x ∷ xs) [] supply ledger n h has = absurd (omega (arith, n))
  mint_all_supply (x ∷ xs) (_ ∷ []) supply ledger n h has = absurd (omega (arith, n))
  mint_all_supply (x ∷ xs) (destination ∷ m ∷ remaining) supply ledger {ledger'} n h has =
      let (mid, first, rest) =
        >>=-eq-ok (mint_to mint destination.key (mint_authority rt tp mint) x ledger) _
          {b = ledger'} h in
      let (s, unpacks, e) =
        mint_all_supply xs remaining (supply + x) mid {ledger' = ledger'} (omega (arith, n)) rest
          (minted destination.key (mint_authority rt tp mint) x supply ledger first has) in
      (s, unpacks, omega (arith, e))

  -- An issue of one amount is an issuer's, to an account that complies with the transfer-control mode;
  -- the supply grows by the amount, which the cap permits.
  pub mint_tokens_supply :
      (a : AssetAccounts) (mode_pda : AccountInfo TransferControlMode)
      (control_list_pda : AccountInfo ControlListStatus) (max_supply_pda : AccountInfo MaxSupply)
      (destination : Pubkey) (amount supply : ℕ) (ledger : Ledger) {ledger' : Ledger}
      → mint_tokens rt tp mint a mode_pda control_list_pda max_supply_pda destination amount ledger
        ≡ ok ledger'
      → HasSupply (mint_state mint ledger) supply
      → (require_role a.authority_roles_pda role_issuer ≡ ok tt)
        × Complies mode_pda (control_list_pda ∷ [])
        × Permits (mint_state mint ledger) max_supply_pda a.asset_class_version_pda amount
        × HasSupply (mint_state mint ledger') (supply + amount)
  unfolding mint_tokens
  mint_tokens_supply a mode_pda control_list_pda max_supply_pda destination amount supply ledger h
        has =
      (
        ground arith,
        (verify_transfer_control_mode-Complies mode_pda (control_list_pda ∷ [])).0 (ground arith),
        (require_within_max_supply-Permits (mint_state mint ledger) max_supply_pda
              a.asset_class_version_pda amount).0
            (ground arith),
        minted destination (mint_authority rt tp mint) amount supply ledger (ground arith) has,
      )

  -- A batch that is issued adds the sum of its amounts to the supply, and the cap permits that sum.
  pub batch_mint_supply :
      (a : AssetAccounts) (mode_pda : AccountInfo TransferControlMode)
      (max_supply_pda : AccountInfo MaxSupply) (amounts : List ℕ)
      (remaining : List RemainingAccount) (supply : ℕ) (ledger : Ledger) {ledger' : Ledger}
      → batch_mint rt tp mint a mode_pda max_supply_pda amounts remaining ledger ≡ ok ledger'
      → HasSupply (mint_state mint ledger) supply
      → (require_role a.authority_roles_pda role_issuer ≡ ok tt)
        × Permits (mint_state mint ledger) max_supply_pda a.asset_class_version_pda (sum amounts)
        × HasSupply (mint_state mint ledger') (supply + sum amounts)
  unfolding batch_mint
  batch_mint_supply a mode_pda max_supply_pda amounts remaining supply ledger {ledger'} h has =
      let (_, h1) =
        >>-eq-ok (require (not (length amounts == 0)) (mint_error MintError.empty_batch)) _
          {b = ledger'} h in
      let (paired, h2) =
        >>-eq-ok
          (require (length remaining == length amounts * 2)
            (mint_error MintError.invalid_remaining_accounts))
          _ {b = ledger'} h1 in
      let (issuer, h3) =
        >>-eq-ok (require_role a.authority_roles_pda role_issuer) _ {b = ledger'} h2 in
      let (_, h4) = >>-eq-ok (require_active a.deactivate_pda) _ {b = ledger'} h3 in
      let (_, h5) =
        >>-eq-ok (require_functionality a.asset_class_version_pda mint_mint) _ {b = ledger'} h4 in
      let (total, e, h6) =
        >>=-eq-ok (ok_or (batch_total 0 amounts) (mint_error amount_overflow)) _ {b = ledger'} h5 in
      let (capped, h7) =
        >>-eq-ok
          (require_within_max_supply (mint_state mint ledger) max_supply_pda
            a.asset_class_version_pda total)
          _ {b = ledger'} h6 in
      let (pdas, _, h8) = >>=-eq-ok (control_list_pdas rt tp mint remaining) _ {b = ledger'} h7 in
      let (_, done) = >>-eq-ok (verify_transfer_control_mode mode_pda pdas) _ {b = ledger'} h8 in
      let total_eq : total ≡ sum amounts = total_of amounts e in
      (
        issuer,
        rw (sym total_eq) (
            (require_within_max_supply-Permits (mint_state mint ledger) max_supply_pda
                a.asset_class_version_pda total).0
              capped),
        mint_all_supply amounts remaining supply ledger (same_length _ _ paired) done has,
      )
