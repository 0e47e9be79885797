-- ===== src/Hold/Execution.antt =====
-- Executions: what one that succeeds found and did, and that none is possible once a hold can be
-- reclaimed.
use asseto_solana_programs.Prelude.{
  ◌<◌, ℕ, ⊤, ◌+◌, ◌≤◌, ◌≡◌, ap, sym, ◌∙◌, false, not, Option, none, some, arith, ltb, leb, ◌==◌,
  List, [], ◌∷◌,
}
use asseto_solana_programs.Prelude.Int.{ℤ, ltb_ℤ, ◌<ℤ◌}
use asseto_solana_programs.Errors.{
  ◌>>=◌, ◌>>◌, freeze, account_frozen, hold, not_the_escrow, hold_not_active, hold_expired,
  zero_amount, amount_exceeds_hold, Error, Result, ok, require, >>=-eq-ok, >>-eq-ok,
}
use asseto_solana_programs.Common.ProgramIds.{Pubkey}
use asseto_solana_programs.Common.PdaSeeds.{Runtime}
use asseto_solana_programs.Common.State.{AccountInfo, AssetClassVersion, HoldPosition, TokenAccount}
use asseto_solana_programs.Common.Guards.{AssetAccounts, require_functionality}
use asseto_solana_programs.Common.Functionalities.{hold_create_hold}
use asseto_solana_programs.Common.Token.{TokenProgram}
use asseto_solana_programs.Common.ProgramIds.{hold_program_id}
use asseto_solana_programs.Common.PdaSeeds.{hold_authority_seeds}
use asseto_solana_programs.Common.Guards.{require_not_paused, require_active}
use asseto_solana_programs.Freeze.{freeze_status, require_locked_balance_covered}
use asseto_solana_programs.TransferControl.{ControlListStatus, verify_transfer_control_mode}
use asseto_solana_programs.TransferControl.Laws.{Complies, verify_transfer_control_mode-Complies}
use asseto_solana_programs.TransferHook.Laws.{covered_balance, thawed_status}
use asseto_solana_programs.Operations.{hold_transfer}
use asseto_solana_programs.Hold.{active, Hold}
use asseto_solana_programs.Hold.Instructions.{
  ExecuteHold, is_active, lower_position, lower_hold, verify_destination, locked_with, reclaim_hold,
  execute_hold,
}
use asseto_solana_programs.Hold.Outcome.{
  Lowers, is_active_eq, positive_eq, same_key, lower_position_eq, lower_hold_eq,
  reclaim_hold_effect,
}

-- A hold that names no destination pins none.
abbrev pub Pins : Option Pubkey → Pubkey → Type 0
Pins none destination = ⊤
Pins (some pinned) destination = destination ≡ pinned

pinned_destination :
    (d : Option Pubkey) (destination : Pubkey)
    → verify_destination d destination ≡ ok tt
    → Pins d destination
pinned_destination none destination h = tt
pinned_destination (some x) destination h = ground arith

before_eq : (a b : ℤ) (e : Error) → require (ltb_ℤ a b) e ≡ ok tt → a <ℤ b
before_eq a b e h = ground arith

module _ (rt : Runtime) (tp : TokenProgram) where
  open tp use {Ledger, token_account}

  -- What an execution that succeeds found and did, besides lowering the hold.
  pub record Executed (now : ℤ) (a : AssetAccounts) (c : ExecuteHold) (p : HoldPosition) (h : Hold)
      (amount : ℕ) (ledger ledger' : Ledger) : Type 0 where
    pub by_escrow : c.escrow ≡ h.escrow
    pub in_time : now <ℤ h.expiration
    pub to_destination : Pins h.destination c.destination_token
    pub complies :
        Complies c.transfer_control_mode_pda
          (c.source_control_list_pda ∷ c.destination_control_list_pda ∷ [])
    pub frozen : ℕ
    pub not_frozen :
        freeze_status c.source_freeze_state_pda
        ≡ ok (record { fully_frozen = false; frozen_balance = frozen })
    pub source : TokenAccount
    pub unpacks : token_account c.source_token ledger ≡ ok source
    pub covered : frozen + p.held_amount ≤ source.amount
    pub moved :
        hold_transfer rt tp c.mint
          (rt.find_program_address (hold_authority_seeds c.mint) hold_program_id).0
          c.source_token
          c.destination_token
          amount
          ledger
        ≡ ok ledger'

  locked_with_eq :
      (frozen held amount : ℕ) {total : ℕ}
      → locked_with frozen held amount ≡ ok total
      → total ≡ frozen + held + amount
  unfolding locked_with
  locked_with_eq frozen held amount h = ground arith

  written :
      {p1 p' : HoldPosition} {h1 h' : Hold} {l1 l' : Ledger}
      → ◌≡◌ {A = Result (HoldPosition × Hold × Ledger)} (ok (p1, h1, l1)) (ok (p', h', l'))
      → (p1 ≡ p') × (h1 ≡ h') × (l1 ≡ l')
  written e = (ground (arith, e), ground (arith, e), ground (arith, e))

  -- The part of the handler after its checks of the hold: the locks, the two states, the transfer.
  abbrev settlement :
      ExecuteHold → HoldPosition → Hold → ℕ → Ledger → Result (HoldPosition × Hold × Ledger)
  settlement c p h amount ledger = do
    status ← freeze_status c.source_freeze_state_pda
    require (not status.fully_frozen) (freeze account_frozen)
    position' ← lower_position p amount
    total_locked ← locked_with status.frozen_balance position'.held_amount amount
    require_locked_balance_covered (token_account c.source_token ledger) total_locked
    h' ← lower_hold h amount
    ledger' ←
        hold_transfer rt tp c.mint
          (rt.find_program_address (hold_authority_seeds c.mint) hold_program_id).0 c.source_token
          c.destination_token amount ledger
    ok (position', h', ledger')

  checked :
      (now : ℤ) (a : AssetAccounts) (c : ExecuteHold) (p : HoldPosition) (h : Hold) (amount : ℕ)
      (ledger : Ledger) {out : HoldPosition × Hold × Ledger}
      → execute_hold rt tp now a c p h amount ledger ≡ ok out
      → (c.escrow ≡ h.escrow)
        × (h.status ≡ active)
        × (now <ℤ h.expiration)
        × (0 < amount)
        × Pins h.destination c.destination_token
        × Complies c.transfer_control_mode_pda
            (c.source_control_list_pda ∷ c.destination_control_list_pda ∷ [])
        × (settlement c p h amount ledger ≡ ok out)
  unfolding execute_hold
  checked now a c p h amount ledger {out} e =
      let pdas : List (AccountInfo ControlListStatus) =
        c.source_control_list_pda ∷ c.destination_control_list_pda ∷ [] in
      let (_, e1) = >>-eq-ok (require_not_paused a.mint) _ {b = out} e in
      let (_, e2) = >>-eq-ok (require_active a.deactivate_pda) _ {b = out} e1 in
      let (_, e3) =
        >>-eq-ok (require_functionality a.asset_class_version_pda hold_create_hold) _ {b = out}
          e2 in
      let (by_escrow, e4) =
        >>-eq-ok (require (c.escrow == h.escrow) (hold not_the_escrow)) _ {b = out} e3 in
      let (live, e5) =
        >>-eq-ok (require (is_active h.status) (hold hold_not_active)) _ {b = out} e4 in
      let (in_time, e6) =
        >>-eq-ok (require (ltb_ℤ now h.expiration) (hold hold_expired)) _ {b = out} e5 in
      let (some_amount, e7) = >>-eq-ok (require (ltb 0 amount) (hold zero_amount)) _ {b = out} e6 in
      let (_, e8) =
        >>-eq-ok (require (leb amount h.current_amount) (hold amount_exceeds_hold)) _ {b = out}
          e7 in
      let (dest, e9) =
        >>-eq-ok (verify_destination h.destination c.destination_token) _ {b = out} e8 in
      let (mode, e10) =
        >>-eq-ok (verify_transfer_control_mode c.transfer_control_mode_pda pdas) _ {b = out} e9 in
      (
        same_key c.escrow h.escrow (hold not_the_escrow) by_escrow,
        is_active_eq h.status (hold hold_not_active) live,
        before_eq now h.expiration (hold hold_expired) in_time,
        positive_eq amount (hold zero_amount) some_amount,
        pinned_destination h.destination c.destination_token dest,
        (verify_transfer_control_mode-Complies c.transfer_control_mode_pda pdas).0 mode,
        e10,
      )

  -- An execution that succeeds is the escrow's, before the expiration, to the destination that the hold
  -- pins; both parties comply, the source is not frozen, its balance covers what is frozen and held, and
  -- Token-2022 moves exactly the amount by which the hold and the lien fall.
  pub execute_hold-Executed :
      (now : ℤ) (a : AssetAccounts) (c : ExecuteHold) (p : HoldPosition) (h : Hold) (amount : ℕ)
      (ledger : Ledger) {p' : HoldPosition} {h' : Hold} {ledger' : Ledger}
      → execute_hold rt tp now a c p h amount ledger ≡ ok (p', h', ledger')
      → Lowers p h amount p' h' × Executed now a c p h amount ledger ledger'
  execute_hold-Executed now a c p h amount ledger {p'} {h'} {ledger'} whole =
      let out : HoldPosition × Hold × Ledger = (p', h', ledger') in
      let (by_escrow, was_active, in_time, positive, pinned, complies, e) =
        checked now a c p h amount ledger {out = out} whole in
      let (status, hs, e11) = >>=-eq-ok (freeze_status c.source_freeze_state_pda) _ {b = out} e in
      let (thawed, e12) =
        >>-eq-ok (require (not status.fully_frozen) (freeze account_frozen)) _ {b = out} e11 in
      let (p1, ep, e13) = >>=-eq-ok (lower_position p amount) _ {b = out} e12 in
      let (total, sum, e14) =
        >>=-eq-ok (locked_with status.frozen_balance p1.held_amount amount) _ {b = out} e13 in
      let (cover, e15) =
        >>-eq-ok (require_locked_balance_covered (token_account c.source_token ledger) total) _
          {b = out} e14 in
      let (h1, eh, e16) = >>=-eq-ok (lower_hold h amount) _ {b = out} e15 in
      let (l1, moved, e17) =
        >>=-eq-ok
          (hold_transfer rt tp c.mint
            (rt.find_program_address (hold_authority_seeds c.mint) hold_program_id).0 c.source_token
            c.destination_token amount ledger)
          _ {b = out} e16 in
      let (same_p, same_h, same_l) = written e17 in
      let (lien, position_after) = lower_position_eq p amount ep in
      let (within, hold_after) = lower_hold_eq h amount was_active eh in
      let (source, unpacks, below) =
        covered_balance (token_account c.source_token ledger) total cover in
      let total_eq = locked_with_eq status.frozen_balance p1.held_amount amount sum in
      let left = ap (λ q. q.held_amount) position_after in
      (
        record {
          was_active = was_active;
          positive = positive;
          within_hold = within;
          within_lien = lien;
          position_after = sym same_p ∙ position_after;
          hold_after = sym same_h ∙ hold_after;
        },
        record {
          by_escrow = by_escrow;
          in_time = in_time;
          to_destination = pinned;
          complies = complies;
          frozen = status.frozen_balance;
          not_frozen = hs ∙ ap ok (thawed_status status thawed);
          source = source;
          unpacks = unpacks;
          covered = omega (arith, below, total_eq, lien, left);
          moved = moved ∙ ap ok same_l;
        },
      )

  -- A hold is never open to its escrow's execution and to a reclaim at one time: whatever time it can be
  -- executed at comes before any time it can be reclaimed at.
  pub execute_hold-before-reclaim_hold :
      (now later : ℤ) (a : AssetAccounts) (c : ExecuteHold) (version : AssetClassVersion)
      (p : HoldPosition) (h : Hold) (amount : ℕ) (ledger : Ledger) {p1 p2 : HoldPosition}
      {h1 h2 : Hold} {ledger' : Ledger}
      → execute_hold rt tp now a c p h amount ledger ≡ ok (p1, h1, ledger')
      → reclaim_hold later version p h ≡ ok (p2, h2)
      → now <ℤ later
  execute_hold-before-reclaim_hold now later a c version p h amount ledger e r =
      let (_, x) = execute_hold-Executed now a c p h amount ledger e in
      let (_, lapsed, _, _, _) = reclaim_hold_effect later version p h r in
      omega (arith, x.in_time, lapsed)
