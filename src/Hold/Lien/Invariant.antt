-- ===== src/Hold/Lien/Invariant.antt =====
-- The invariant of the lien: it is the sum of the holds, and the balance covers it.
use asseto_solana_programs.Prelude.{ℕ, ◌+◌, ◌≤◌, ◌≡◌, refl, ap, sym, subst, ◌∙◌, arith, inl, inr}
use asseto_solana_programs.Prelude.Int.{ℤ}
use asseto_solana_programs.Errors.{ok, ok_inj}
use asseto_solana_programs.Common.ProgramIds.{Pubkey}
use asseto_solana_programs.Common.PdaSeeds.{Runtime}
use asseto_solana_programs.Common.State.{AccountInfo, HoldPosition, TokenAccount}
use asseto_solana_programs.Common.Guards.{AssetAccounts, held_amount}
use asseto_solana_programs.Common.Token.{TokenProgram}
use asseto_solana_programs.Common.ProgramIds.{hold_program_id}
use asseto_solana_programs.Common.PdaSeeds.{hold_authority_seeds}
use asseto_solana_programs.Operations.{hold_transfer}
use asseto_solana_programs.Operations.Laws.{
  CoversHold, Transferred, Burned, controller_transfer-CoversHold, burn-CoversHold,
  burn_entry-CoversHold, hold_transfer-Transferred,
}
use asseto_solana_programs.TransferHook.Laws.{execute-Compliant}
use asseto_solana_programs.Hold.{Hold}
use asseto_solana_programs.Hold.Instructions.{ExecuteHold}
use asseto_solana_programs.Hold.Creation.{create_hold-Created, controller_create_hold-Created}
use asseto_solana_programs.Hold.Outcome.{release_hold-Lowers, reclaim_hold_effect}
use asseto_solana_programs.Hold.Execution.{Executed, execute_hold-Executed}
use asseto_solana_programs.Hold.Lien.{
  TokenLaws, World, Step, create, controller_create, release, reclaim, settle, transfer,
  forced_transfer, burning, batch_burning, receive, Reachable, start, step,
}
use asseto_solana_programs.Hold.Lien.Sums.{total}
use asseto_solana_programs.Hold.Lien.Records.{
  Records, Covers, held_of_loaded, Created-Records, Lowered-Records, Lowers-Records,
}

module _ (rt : Runtime) (tp : TokenProgram) (laws : TokenLaws tp) (mint key : Pubkey) where
  open tp use {Ledger, token_account}

  -- The records agree, and the balance covers the lien.
  pub record IsSound (w : World rt tp mint key) : Type 0 where
    pub records : Records w.position w.holds
    pub covered : Covers (token_account key w.ledger) (total w.holds)

  -- What is left after `amount` has been taken.
  remaining_Covers :
      (amount n : ℕ) (ledger ledger' : Ledger)
      → Covers (token_account key ledger) (n + amount)
      → ((s : TokenAccount)
          → token_account key ledger ≡ ok s
          → (s' : TokenAccount) × (token_account key ledger' ≡ ok s')
            × (s.amount ≤ s'.amount + amount))
      → Covers (token_account key ledger') n
  remaining_Covers amount n ledger ledger' (s, unpacks, above) takes =
      let (s', unpacks', left) = takes s unpacks in (s', unpacks', omega (arith, above, left))

  CoversHold-Covers :
      (position : AccountInfo HoldPosition) (amount n : ℕ) (ledger : Ledger)
      → held_amount position ≡ ok n
      → CoversHold (token_account key ledger) position amount
      → Covers (token_account key ledger) (n + amount)
  CoversHold-Covers position amount n ledger e c =
      (c.source, c.unpacks, omega (arith, c.covered, ok_inj (sym e ∙ c.lien)))

  Transferred-Covers :
      (to : Pubkey) (amount n : ℕ) (ledger ledger' : Ledger)
      → Covers (token_account key ledger) (n + amount)
      → Transferred rt tp mint key to amount ledger ledger'
      → Covers (token_account key ledger') n
  Transferred-Covers to amount n ledger ledger' above (decimals, moved) =
      remaining_Covers amount n ledger ledger' above (λ s unpacks.
        laws.transfer_checked_takes key mint to _ amount decimals ledger s moved unpacks)

  Burned-Covers :
      (amount n : ℕ) (ledger ledger' : Ledger)
      → Covers (token_account key ledger) (n + amount)
      → Burned rt tp mint key amount ledger ledger'
      → Covers (token_account key ledger') n
  Burned-Covers amount n ledger ledger' above burnt =
      remaining_Covers amount n ledger ledger' above
        (λ s unpacks. laws.permissioned_burn_takes key mint _ _ amount ledger s burnt unpacks)

  settled_Covers :
      (now : ℤ) (a : AssetAccounts) (c : ExecuteHold) (p : HoldPosition) (h : Hold) (amount n : ℕ)
      (ledger ledger' : Ledger)
      → c.mint ≡ mint
      → c.source_token ≡ key
      → n + amount ≤ p.held_amount
      → Executed rt tp now a c p h amount ledger ledger'
      → Covers (token_account key ledger') n
  settled_Covers now a c p h amount n ledger ledger' same_mint same_key below x =
      let at_key =
        subst
          (λ m.
            hold_transfer rt tp m
              (rt.find_program_address (hold_authority_seeds m) hold_program_id).0 c.source_token
              c.destination_token amount ledger
            ≡ ok ledger')
          same_mint x.moved in
      let (_, moved) =
        hold_transfer-Transferred rt tp mint _ key c.destination_token amount ledger (
          subst
            (λ k.
              hold_transfer rt tp mint
                (rt.find_program_address (hold_authority_seeds mint) hold_program_id).0 k
                c.destination_token amount ledger
              ≡ ok ledger')
            same_key at_key) in
      Transferred-Covers c.destination_token amount n ledger ledger'
        (
          x.source,
          subst (λ k. token_account k ledger ≡ ok x.source) same_key x.unpacks,
          omega (arith, x.covered, below),
        )
        moved

  step-IsSound : {w w' : World rt tp mint key} → Step rt tp mint key w w' → IsSound w → IsSound w'
  step-IsSound (create now a c args ledger holds same_mint unpacks e) sound =
      let (records, below) =
        Created-Records c args holds (create_hold-Created now a c args e) sound.records in
      record { records = records; covered = (c.token_account, unpacks, below) }
  step-IsSound (controller_create now a c args ledger holds same_mint unpacks e) sound =
      let (created, _) = controller_create_hold-Created now a c args e in
      let (records, below) = Created-Records c args holds created sound.records in
      record { records = records; covered = (c.token_account, unpacks, below) }
  step-IsSound (release version escrow p h amount ledger e x) sound =
      let (_, lowers) = release_hold-Lowers version escrow p h amount e in
      let (records, less) = Lowers-Records lowers x sound.records in
      let (s, unpacks, above) = sound.covered in
      record { records = records; covered = (s, unpacks, omega (arith, less, above)) }
  step-IsSound (reclaim now version p h ledger e x) sound =
      let (_, _, within, ep, eh) = reclaim_hold_effect now version p h e in
      let (s, unpacks, above) = sound.covered in
      let (records, less) =
        Lowered-Records h.current_amount (omega (arith, ap (λ q. q.held_amount) ep, within))
          (ap (λ q. q.hold_count) ep) (omega (arith, ap (λ q. q.current_amount) eh))
          (ap (λ q. q.hold_id) eh) (rw eh (refl, omega arith)) x sound.records in
      record { records = records; covered = (s, unpacks, omega (arith, less, above)) }
  step-IsSound (settle now a c p h amount ledger {ledger' = ledger'} same_mint same_key e x) sound =
      let (lowers, done) = execute_hold-Executed rt tp now a c p h amount ledger e in
      let (records, less) = Lowers-Records lowers x sound.records in
      record {
        records = records;
        covered =
            settled_Covers now a c p h amount _ ledger ledger' same_mint same_key
              (omega (arith, less, held_of_loaded p sound.records.lien)) done;
      }
  step-IsSound (transfer e ledger ledger' holds unpacks no_delegate passed) sound =
      elim ((execute-Compliant rt e).0 passed).1 [
        | inl delegate ↦ cc
        | inr c ↦ record {
          records = sound.records;
          covered = (
            c.source,
            sym unpacks ∙ c.unpacks,
            omega (arith, c.covered, ok_inj (sym sound.records.lien ∙ c.lien)),
          );
        }
      ]
  step-IsSound (forced_transfer a position to amount ledger holds {ledger' = ledger'} e) sound =
      let (_, c, moved) =
        controller_transfer-CoversHold rt tp mint a position key to amount ledger e in
      record {
        records = sound.records;
        covered =
            Transferred-Covers to amount _ ledger ledger'
              (CoversHold-Covers position amount _ ledger sound.records.lien c) moved;
      }
  step-IsSound (burning a position amount ledger holds {ledger' = ledger'} e) sound =
      let (_, c, burnt) = burn-CoversHold rt tp mint a position key amount ledger e in
      record {
        records = sound.records;
        covered =
            Burned-Covers amount _ ledger ledger'
              (CoversHold-Covers position amount _ ledger sound.records.lien c) burnt;
      }
  step-IsSound (batch_burning r amount ledger holds {ledger' = ledger'} e) sound =
      let (_, c, burnt) = burn_entry-CoversHold rt tp mint amount key r ledger e in
      record {
        records = sound.records;
        covered =
            Burned-Covers amount _ ledger ledger'
              (CoversHold-Covers r.as_hold_position amount _ ledger sound.records.lien c) burnt;
      }
  step-IsSound (receive position ledger ledger' holds s s' before after grows) sound =
      let (t, unpacks, above) = sound.covered in
      record {
        records = sound.records;
        covered = (
          s',
          after,
          omega (arith, above, grows, ap (λ q. q.amount) (ok_inj (sym unpacks ∙ before))),
        );
      }

  -- Whatever instructions and transfers an account goes through from the start, its position records its
  -- holds: the lien is the sum of what is left of them, they are numbered in order, a hold is active
  -- exactly while something is left of it, and the balance covers the lien, by what Token-2022
  -- documents of transfers and burns.
  pub Reachable-IsSound : {w : World rt tp mint key} → Reachable rt tp mint key w → IsSound w
  unfolding held_amount
  Reachable-IsSound (start ledger s unpacks) = record {
    records = record { lien = refl; count = refl; numbered = tt; valid = tt };
    covered = (s, unpacks, omega arith);
  }
  Reachable-IsSound (step reached s) = step-IsSound s (Reachable-IsSound reached)
