-- ===== src/Operations/Laws.antt =====
-- What the operations that bypass the transfer hook require of the balance.
use asseto_solana_programs.Prelude.{ℕ, ◌+◌, ◌≤◌, ◌≡◌, refl, arith}
use asseto_solana_programs.Errors.{Result, ok, err, ◌>>=◌, >>=-eq-ok}
use asseto_solana_programs.Common.ProgramIds.{Pubkey, hold_program_id}
use asseto_solana_programs.Common.PdaSeeds.{
  Runtime, hold_position_seeds, hold_authority_seeds, is_caller_pda,
}
use asseto_solana_programs.Common.State.{AccountInfo, HoldPosition, TokenAccount}
use asseto_solana_programs.Common.Guards.{
  AssetAccounts, require_role, held_amount, require_hold_covered,
  require_hold_covered_unverified_pda,
}
use asseto_solana_programs.Common.Roles.{role_controller}
use asseto_solana_programs.Common.Token.{TokenProgram}
use asseto_solana_programs.Operations.{
  RemainingAccount, operations_authority, permissioned_burn_authority, hold_transfer,
  controller_transfer, burn, burn_entry,
}

-- The balance of an account covers its holds and `amount` on top of them.
pub record CoversHold (token_account : Result TokenAccount) (position : AccountInfo HoldPosition)
    (amount : ℕ) : Type 0 where
  pub source : TokenAccount
  pub unpacks : token_account ≡ ok source
  pub held : ℕ
  pub lien : held_amount position ≡ ok held
  pub covered : held + amount ≤ source.amount

covers_of :
    (source : TokenAccount) (lien : Result ℕ) (position : AccountInfo HoldPosition) (amount : ℕ)
    → held_amount position ≡ lien
    → require_hold_covered (ok source) position amount ≡ ok tt
    → CoversHold (ok source) position amount
unfolding require_hold_covered
covers_of source (ok held) position amount e h = record {
  source = source;
  unpacks = refl;
  held = held;
  lien = e;
  covered = ground arith;
}
covers_of source (err x) position amount e h = absurd (ground arith)

pub require_hold_covered-CoversHold :
    (token_account : Result TokenAccount) (position : AccountInfo HoldPosition) (amount : ℕ)
    → require_hold_covered token_account position amount ≡ ok tt
    → CoversHold token_account position amount
unfolding require_hold_covered
require_hold_covered-CoversHold (ok source) position amount h =
    covers_of source (held_amount position) position amount refl h
require_hold_covered-CoversHold (err e) position amount h = cc

module _ (rt : Runtime) (tp : TokenProgram) (mint : Pubkey) where
  open tp use {Ledger, mint_state, token_account, transfer_checked, permissioned_burn}

  -- The transfer that Token-2022 is asked for, with the decimals of the mint.
  abbrev pub Transferred : Pubkey → Pubkey → ℕ → Ledger → Ledger → Type 0
  Transferred from to amount ledger ledger' =
      (decimals : ℕ) × (transfer_checked from mint to (operations_authority rt tp mint) amount
          decimals ledger
        ≡ ok ledger')

  Transferred-of :
      (from to : Pubkey) (amount : ℕ) (ledger : Ledger) {ledger' : Ledger}
      → (mint_state mint ledger >>= λ state.
          transfer_checked from mint to
            (operations_authority rt tp mint)
            amount
            state.decimals
            ledger)
        ≡ ok ledger'
      → Transferred from to amount ledger ledger'
  Transferred-of from to amount ledger {ledger'} h =
      let (state, _, moved) = >>=-eq-ok (mint_state mint ledger) _ {b = ledger'} h in
      (state.decimals, moved)

  -- A forced transfer is a controller's, and leaves in the source account what its holds commit.
  pub controller_transfer-CoversHold :
      (a : AssetAccounts) (position : AccountInfo HoldPosition) (from to : Pubkey) (amount : ℕ)
      (ledger : Ledger) {ledger' : Ledger}
      → controller_transfer rt tp mint a position from to amount ledger ≡ ok ledger'
      → (require_role a.authority_roles_pda role_controller ≡ ok tt)
        × CoversHold (token_account from ledger) position amount
        × Transferred from to amount ledger ledger'
  unfolding controller_transfer
  controller_transfer-CoversHold a position from to amount ledger h = (
    ground arith,
    require_hold_covered-CoversHold (token_account from ledger) position amount (ground arith),
    Transferred-of from to amount ledger (ground arith),
  )

  abbrev pub Burned : Pubkey → ℕ → Ledger → Ledger → Type 0
  Burned account amount ledger ledger' =
      permissioned_burn account mint (permissioned_burn_authority rt tp mint)
        (operations_authority rt tp mint) amount ledger
      ≡ ok ledger'

  -- So does a burn.
  pub burn-CoversHold :
      (a : AssetAccounts) (position : AccountInfo HoldPosition) (account : Pubkey) (amount : ℕ)
      (ledger : Ledger) {ledger' : Ledger}
      → burn rt tp mint a position account amount ledger ≡ ok ledger'
      → (require_role a.authority_roles_pda role_controller ≡ ok tt)
        × CoversHold (token_account account ledger) position amount
        × Burned account amount ledger ledger'
  unfolding burn
  burn-CoversHold a position account amount ledger h = (
    ground arith,
    require_hold_covered-CoversHold (token_account account ledger) position amount (ground arith),
    ground arith,
  )

  -- A burn of a batch checks besides that the hold position is the account's own.
  pub burn_entry-CoversHold :
      (amount : ℕ) (account : Pubkey) (r : RemainingAccount) (ledger : Ledger) {ledger' : Ledger}
      → burn_entry rt tp mint amount account r ledger ≡ ok ledger'
      → (r.key ≡ (rt.find_program_address (hold_position_seeds mint account) hold_program_id).0)
        × CoversHold (token_account account ledger) r.as_hold_position amount
        × Burned account amount ledger ledger'
  unfolding burn_entry require_hold_covered_unverified_pda
  burn_entry-CoversHold amount account r ledger h = (
    ground arith,
    require_hold_covered-CoversHold (token_account account ledger) r.as_hold_position amount
        (ground arith),
    ground arith,
  )

  pub hold_transfer-Transferred :
      (authority from to : Pubkey) (amount : ℕ) (ledger : Ledger) {ledger' : Ledger}
      → hold_transfer rt tp mint authority from to amount ledger ≡ ok ledger'
      → (authority ≡ (rt.find_program_address (hold_authority_seeds mint) hold_program_id).0)
        × Transferred from to amount ledger ledger'
  unfolding hold_transfer is_caller_pda
  hold_transfer-Transferred authority from to amount ledger h =
      (ground arith, Transferred-of from to amount ledger (ground arith))
