-- ===== src/Hold/Outcome.antt =====
-- What each instruction that resolves a hold does to the hold and to the lien of its account.
use asseto_solana_programs.Prelude.{
  ℕ, ◌-◌, ◌≤◌, ◌<◌, ◌≡◌, refl, arith, ltb, leb, ◌==◌, if◌then◌else◌,
}
use asseto_solana_programs.Prelude.Int.{ℤ, leb_ℤ, ◌≤ℤ◌}
use asseto_solana_programs.Errors.{
  hold, not_the_escrow, hold_not_active, hold_not_expired, zero_amount, amount_exceeds_hold, Error,
  ok, require, >>=-eq-ok, >>-eq-ok,
}
use asseto_solana_programs.Common.ProgramIds.{Pubkey}
use asseto_solana_programs.Common.State.{AssetClassVersion, HoldPosition}
use asseto_solana_programs.Common.Guards.{require_functionality}
use asseto_solana_programs.Common.Functionalities.{hold_create_hold}
use asseto_solana_programs.Hold.{HoldStatus, active, expired, closed, Hold}
use asseto_solana_programs.Hold.Instructions.{
  is_active, lower_position, lower_hold, release_hold, reclaim_hold,
}

-- The lien falls by the amount, and so does the hold, which closes at zero.
pub record Lowers (p : HoldPosition) (h : Hold) (amount : ℕ) (p' : HoldPosition) (h' : Hold)
    : Type 0 where
  pub was_active : h.status ≡ active
  pub positive : 0 < amount
  pub within_hold : amount ≤ h.current_amount
  pub within_lien : amount ≤ p.held_amount
  pub position_after : p' ≡ record p { held_amount = p.held_amount - amount }
  pub hold_after : h' ≡ record h {
    current_amount = h.current_amount - amount;
    status = if h.current_amount == amount then closed else active;
  }

pub is_active_eq : (s : HoldStatus) (e : Error) → require (is_active s) e ≡ ok tt → s ≡ active
is_active_eq active e h = refl
is_active_eq expired e h = cc
is_active_eq closed e h = cc

pub positive_eq : (amount : ℕ) (e : Error) → require (ltb 0 amount) e ≡ ok tt → 0 < amount
positive_eq amount e h = ground arith

pub same_key : (a b : Pubkey) (e : Error) → require (a == b) e ≡ ok tt → a ≡ b
same_key a b e h = ground arith

pub lower_position_eq :
    (p : HoldPosition) (amount : ℕ) {p' : HoldPosition}
    → lower_position p amount ≡ ok p'
    → (amount ≤ p.held_amount) × (p' ≡ record p { held_amount = p.held_amount - amount })
unfolding lower_position
lower_position_eq p amount h = ground arith

pub lower_hold_eq :
    (h : Hold) (amount : ℕ) {h' : Hold}
    → h.status ≡ active
    → lower_hold h amount ≡ ok h'
    → (amount ≤ h.current_amount)
      × (h' ≡ record h {
        current_amount = h.current_amount - amount;
        status = if h.current_amount == amount then closed else active;
      })
unfolding lower_hold
lower_hold_eq h amount a e = ground arith

-- A release that succeeds is the escrow's, and lowers the hold and the lien by one amount.
pub release_hold-Lowers :
    (version : AssetClassVersion) (escrow : Pubkey) (p : HoldPosition) (h : Hold) (amount : ℕ)
    {p' : HoldPosition} {h' : Hold}
    → release_hold version escrow p h amount ≡ ok (p', h')
    → (escrow ≡ h.escrow) × Lowers p h amount p' h'
unfolding release_hold
release_hold-Lowers version escrow p h amount {p'} {h'} e =
    let (_, e1) = >>-eq-ok (require_functionality version hold_create_hold) _ {b = (p', h')} e in
    let (by_escrow, e2) =
      >>-eq-ok (require (escrow == h.escrow) (hold not_the_escrow)) _ {b = (p', h')} e1 in
    let (live, e3) =
      >>-eq-ok (require (is_active h.status) (hold hold_not_active)) _ {b = (p', h')} e2 in
    let (some_amount, e4) =
      >>-eq-ok (require (ltb 0 amount) (hold zero_amount)) _ {b = (p', h')} e3 in
    let (_, e5) =
      >>-eq-ok (require (leb amount h.current_amount) (hold amount_exceeds_hold)) _ {b = (p', h')}
        e4 in
    let (p1, ep, e6) = >>=-eq-ok (lower_position p amount) _ {b = (p', h')} e5 in
    let (h1, eh, e7) = >>=-eq-ok (lower_hold h amount) _ {b = (p', h')} e6 in
    let was_active = is_active_eq h.status (hold hold_not_active) live in
    let (lien, position_after) = lower_position_eq p amount ep in
    let (within, hold_after) = lower_hold_eq h amount was_active eh in
    (
      ground (arith, by_escrow),
      record {
        was_active = was_active;
        positive = ground (arith, some_amount);
        within_hold = within;
        within_lien = lien;
        position_after = ground (arith, e7, position_after);
        hold_after = ground (arith, e7, hold_after);
      },
    )

-- A reclaim that succeeds comes at or after the expiration of an active hold, and lifts all that is left
-- of it from the lien.
pub reclaim_hold_effect :
    (now : ℤ) (version : AssetClassVersion) (p : HoldPosition) (h : Hold) {p' : HoldPosition}
    {h' : Hold}
    → reclaim_hold now version p h ≡ ok (p', h')
    → (h.status ≡ active)
      × (h.expiration ≤ℤ now)
      × (h.current_amount ≤ p.held_amount)
      × (p' ≡ record p { held_amount = p.held_amount - h.current_amount })
      × (h' ≡ record h { current_amount = 0; status = expired })
unfolding reclaim_hold
reclaim_hold_effect now version p h {p'} {h'} e =
    let (_, e1) = >>-eq-ok (require_functionality version hold_create_hold) _ {b = (p', h')} e in
    let (live, e2) =
      >>-eq-ok (require (is_active h.status) (hold hold_not_active)) _ {b = (p', h')} e1 in
    let (lapsed, e3) =
      >>-eq-ok (require (leb_ℤ h.expiration now) (hold hold_not_expired)) _ {b = (p', h')} e2 in
    let (p1, ep, e4) = >>=-eq-ok (lower_position p h.current_amount) _ {b = (p', h')} e3 in
    let (lien, position_after) = lower_position_eq p h.current_amount ep in
    (
      is_active_eq h.status (hold hold_not_active) live,
      ground (arith, lapsed),
      lien,
      ground (arith, e4, position_after),
      ground (arith, e4),
    )
