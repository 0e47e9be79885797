-- ===== src/Hold/Creation.antt =====
-- What a hold that is created commits, and what it leaves.
use asseto_solana_programs.Prelude.{ℕ, suc, ◌+◌, ◌≤◌, ◌<◌, ◌≡◌, false, arith, ◌==◌}
use asseto_solana_programs.Prelude.Int.{ℤ}
use asseto_solana_programs.Errors.{external, constraint_failed, ok, require, >>=-eq-ok, >>-eq-ok}
use asseto_solana_programs.Common.State.{HoldPosition}
use asseto_solana_programs.Common.Guards.{AssetAccounts, require_role}
use asseto_solana_programs.Common.Roles.{role_controller}
use asseto_solana_programs.Freeze.{freeze_status}
use asseto_solana_programs.Hold.{active, Hold, NewHoldArgs, HoldTarget, available, record_new_hold}
use asseto_solana_programs.Hold.Instructions.{
  init_if_needed, CreateHold, target_of, create_hold, controller_create_hold,
}

-- The amount is free of every other commitment, and the new hold takes the next number.
pub record Committed (target : HoldTarget) (p : HoldPosition) (args : NewHoldArgs)
    (p' : HoldPosition) (h : Hold) : Type 0 where
  pub frozen : ℕ
  pub not_frozen :
      freeze_status target.freeze_state_pda
      ≡ ok (record { fully_frozen = false; frozen_balance = frozen })
  pub free : frozen + p.held_amount + args.amount ≤ target.balance
  pub positive : 0 < args.amount
  pub lien_after : p'.held_amount ≡ p.held_amount + args.amount
  pub count_after : p'.hold_count ≡ suc p.hold_count
  pub number : h.hold_id ≡ suc p.hold_count
  pub whole : h.current_amount ≡ args.amount
  pub initial : h.initial_amount ≡ args.amount
  pub is_active : h.status ≡ active
  pub escrow : h.escrow ≡ args.escrow
  pub destination : h.destination ≡ args.destination

frozen_of :
    (now : ℤ) (target : HoldTarget) (p : HoldPosition) (pb hb : ℕ) (args : NewHoldArgs)
    {p' : HoldPosition} {h : Hold}
    → record_new_hold now target p pb hb args ≡ ok (p', h)
    → (frozen : ℕ) × (freeze_status target.freeze_state_pda
        ≡ ok (record { fully_frozen = false; frozen_balance = frozen }))
      × (frozen + p.held_amount + args.amount ≤ target.balance)
unfolding record_new_hold available
frozen_of now target p pb hb args {p'} {h} e =
    let out : HoldPosition × Hold = (p', h) in
    let (status, hs, e1) = >>=-eq-ok (freeze_status target.freeze_state_pda) _ {b = out} e in
    (status.frozen_balance, ground (arith, hs, e1), ground (arith, e1))

pub record_new_hold-Committed :
    (now : ℤ) (target : HoldTarget) (p : HoldPosition) (pb hb : ℕ) (args : NewHoldArgs)
    {p' : HoldPosition} {h : Hold}
    → record_new_hold now target p pb hb args ≡ ok (p', h)
    → Committed target p args p' h
unfolding record_new_hold
record_new_hold-Committed now target p pb hb args {p'} {h} e =
    let (frozen, not_frozen, free) = frozen_of now target p pb hb args e in
    record {
      frozen = frozen;
      not_frozen = not_frozen;
      free = free;
      positive = ground arith;
      lien_after = ground arith;
      count_after = ground arith;
      number = ground arith;
      whole = ground arith;
      initial = ground arith;
      is_active = ground arith;
      escrow = ground arith;
      destination = ground arith;
    }

abbrev pub Created : CreateHold → NewHoldArgs → HoldPosition → Hold → Type 0
Created c args p' h =
    (p : HoldPosition) × (init_if_needed c.hold_position ≡ ok p)
    × Committed (target_of c) p args p' h

-- A hold that its account's owner records commits only what is neither frozen nor held.
pub create_hold-Created :
    (now : ℤ) (a : AssetAccounts) (c : CreateHold) (args : NewHoldArgs) {p' : HoldPosition}
    {h : Hold}
    → create_hold now a c args ≡ ok (p', h)
    → Created c args p' h
unfolding create_hold
create_hold-Created now a c args {p'} {h} e =
    let out : HoldPosition × Hold = (p', h) in
    let (_, e1) =
      >>-eq-ok (require (c.token_account.mint == c.mint) (external constraint_failed)) _ {b = out}
        e in
    let (_, e2) =
      >>-eq-ok (require (c.token_account.owner == c.authority) (external constraint_failed)) _
        {b = out} e1 in
    let (p, ep, e3) = >>=-eq-ok (init_if_needed c.hold_position) _ {b = out} e2 in
    (
      p,
      ep,
      record_new_hold-Committed now (target_of c) p c.bump_of_position c.bump_of_hold args
          (ground (arith, e3)),
    )

-- So does one that a controller imposes.
pub controller_create_hold-Created :
    (now : ℤ) (a : AssetAccounts) (c : CreateHold) (args : NewHoldArgs) {p' : HoldPosition}
    {h : Hold}
    → controller_create_hold now a c args ≡ ok (p', h)
    → Created c args p' h × (require_role a.authority_roles_pda role_controller ≡ ok tt)
unfolding controller_create_hold
controller_create_hold-Created now a c args {p'} {h} e =
    let out : HoldPosition × Hold = (p', h) in
    let (_, e1) =
      >>-eq-ok (require (c.token_account.mint == c.mint) (external constraint_failed)) _ {b = out}
        e in
    let (p, ep, e2) = >>=-eq-ok (init_if_needed c.hold_position) _ {b = out} e1 in
    (
      (
        p,
        ep,
        record_new_hold-Committed now (target_of c) p c.bump_of_position c.bump_of_hold args
            (ground (arith, e2)),
      ),
      ground (arith, e2),
    )
