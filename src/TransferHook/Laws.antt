-- ===== src/TransferHook/Laws.antt =====
-- `execute` against the compliance conditions, and what it guarantees of the balance.
use asseto_solana_programs.Prelude.{
  ap, ◌∙◌, not, ℕ, ⊤, ◌+◌, ◌≤◌, ◌<◌, ◌≡◌, refl, ◌↔◌, ◌⊎◌, inl, inr, Bool, true, false, [], ◌∷◌,
  arith, u64_mod, checked_add, Bool-cases,
}
use asseto_solana_programs.Errors.{
  freeze, transfer_hook, not_transferring, account_frozen, insufficient_unfrozen_balance, Error,
  Result, ok, err, ◌>>=◌, require, ok_or, >>=-eq-ok, >>-eq-ok,
}
use asseto_solana_programs.Common.ProgramIds.{operations_program_id}
use asseto_solana_programs.Common.PdaSeeds.{Runtime, permanent_delegate_seeds, is_caller_pda}
use asseto_solana_programs.Common.State.{
  AccountInfo, empty, loaded, unreadable, data_is_empty, TokenAccount,
}
use asseto_solana_programs.Common.Guards.{
  require_active, require_functionality, held_amount, map_err,
}
use asseto_solana_programs.Common.Functionalities.{transfer_hook_execute}
use asseto_solana_programs.Freeze.{FreezeStatus, freeze_status, require_locked_balance_covered}
use asseto_solana_programs.TransferControl.{verify_transfer_control_mode}
use asseto_solana_programs.TransferControl.Laws.{Complies, verify_transfer_control_mode-Complies}
use asseto_solana_programs.TransferHook.{Execute, require_transferring, verify_compliance, execute}

-- The conditions on a holder's transfer, with the balance that it leaves.
pub record Compliant (e : Execute) : Type 0 where
  pub source : TokenAccount
  pub unpacks : e.source_token ≡ ok source
  pub is_active : data_is_empty e.deactivate_pda ≡ true
  pub complies :
      Complies e.transfer_control_mode_pda
        (e.source_control_list_pda ∷ e.destination_control_list_pda ∷ [])
  pub frozen : ℕ
  pub not_frozen :
      freeze_status e.source_freeze_state_pda
      ≡ ok (record { fully_frozen = false; frozen_balance = frozen })
  pub held : ℕ
  pub lien : held_amount e.source_hold_position_pda ≡ ok held
  pub fits : frozen + held < u64_mod
  pub covered : frozen + held ≤ source.amount
  pub supported : require_functionality e.asset_class_version_pda transfer_hook_execute ≡ ok tt

verify_compliance_complete : (e : Execute) → Compliant e → verify_compliance e ≡ ok tt
unfolding verify_compliance require_active require_locked_balance_covered
verify_compliance_complete e c = ground (
  arith,
  (verify_transfer_control_mode-Complies e.transfer_control_mode_pda
        (e.source_control_list_pda ∷ e.destination_control_list_pda ∷ [])).1
      c.complies,
)

active_empty : (pda : AccountInfo ⊤) → require_active pda ≡ ok tt → data_is_empty pda ≡ true
unfolding require_active
active_empty empty h = refl
active_empty (loaded _) h = cc
active_empty (unreadable _) h = cc

pub thawed_status :
    (status : FreezeStatus)
    → require (not status.fully_frozen) (freeze account_frozen) ≡ ok tt
    → status ≡ record { fully_frozen = false; frozen_balance = status.frozen_balance }
thawed_status status h = ground arith

pub covered_balance :
    (token_account : Result TokenAccount) (total : ℕ)
    → require_locked_balance_covered token_account total ≡ ok tt
    → (source : TokenAccount) × (token_account ≡ ok source) × (total ≤ source.amount)
unfolding require_locked_balance_covered
covered_balance (ok source) total h = (source, refl, ground arith)
covered_balance (err e) total h = cc

checked_sum :
    (a b : ℕ) (e : Error) {total : ℕ}
    → ok_or (checked_add a b) e ≡ ok total
    → (a + b < u64_mod) × (total ≡ a + b)
checked_sum a b e h = ground arith

verify_compliance_sound : (e : Execute) → verify_compliance e ≡ ok tt → Compliant e
unfolding verify_compliance require_active
verify_compliance_sound e h =
    let pdas = e.source_control_list_pda ∷ e.destination_control_list_pda ∷ [] in
    let (active, h1) = >>-eq-ok (require_active e.deactivate_pda) _ {b = tt} h in
    let (mode, h2) =
      >>-eq-ok (verify_transfer_control_mode e.transfer_control_mode_pda pdas) _ {b = tt} h1 in
    let (status, hs, h3) = >>=-eq-ok (freeze_status e.source_freeze_state_pda) _ {b = tt} h2 in
    let (thawed, h4) =
      >>-eq-ok (require (not status.fully_frozen) (freeze account_frozen)) _ {b = tt} h3 in
    let (held, lien, h5) = >>=-eq-ok (held_amount e.source_hold_position_pda) _ {b = tt} h4 in
    let (total, sum, h6) =
      >>=-eq-ok
        (ok_or (checked_add status.frozen_balance held) (freeze insufficient_unfrozen_balance)) _
        {b = tt} h5 in
    let (cover, supported) =
      >>-eq-ok (require_locked_balance_covered e.source_token total)
        (require_functionality e.asset_class_version_pda transfer_hook_execute) {b = tt} h6 in
    let (source, unpacks, below) = covered_balance e.source_token total cover in
    let (fits, total_eq) =
      checked_sum status.frozen_balance held (freeze insufficient_unfrozen_balance) sum in
    record {
      source = source;
      unpacks = unpacks;
      is_active = active_empty e.deactivate_pda active;
      complies = (verify_transfer_control_mode-Complies e.transfer_control_mode_pda pdas).0 mode;
      frozen = status.frozen_balance;
      not_frozen = hs ∙ ap ok (thawed_status status thawed);
      held = held;
      lien = lien;
      fits = fits;
      covered = omega (arith, below, total_eq);
      supported = supported;
    }

-- Token-2022 is in a transfer of the source account.
abbrev pub IsTransferring : Result TokenAccount → Type 0
IsTransferring source_token =
    (s : TokenAccount) × (source_token ≡ ok s) × (s.transferring ≡ ok true)

transferring_value :
    (r : Result Bool) (e : Error) → (map_err r e >>= λ b. require b e) ≡ ok tt → r ≡ ok true
transferring_value (ok true) e h = refl
transferring_value (ok false) e h = cc
transferring_value (err x) e h = cc

require_transferring-IsTransferring :
    (source_token : Result TokenAccount)
    → (require_transferring source_token ≡ ok tt) ↔ IsTransferring source_token
unfolding require_transferring
require_transferring-IsTransferring (ok s) = (
  (λ h. (s, refl, transferring_value s.transferring (transfer_hook not_transferring) h)),
  λ (t, e, f). ground arith,
)
require_transferring-IsTransferring (err e) = ((λ h. cc), λ (t, f, g). cc)

abbrev pub by_permanent_delegate : Runtime → Execute → Bool
by_permanent_delegate rt e =
    is_caller_pda rt e.owner (permanent_delegate_seeds e.mint) operations_program_id

-- A transfer of a Token-2022 asset goes through exactly if Token-2022 is in a transfer of the source
-- account and either the permanent delegate signs it, or the asset is active and supports it, both
-- parties comply with the transfer-control mode, the source is not frozen, and the balance that
-- remains covers what is frozen and what is held together.
pub execute-Compliant :
    (rt : Runtime) (e : Execute)
    → (execute rt e ≡ ok tt)
      ↔ (IsTransferring e.source_token × ((by_permanent_delegate rt e ≡ true) ⊎ Compliant e))
unfolding execute
execute-Compliant rt e = (forward, backward)
  where
    forward :
        execute rt e ≡ ok tt
        → IsTransferring e.source_token × ((by_permanent_delegate rt e ≡ true) ⊎ Compliant e)
    forward h =
        let (moving, rest) = >>-eq-ok (require_transferring e.source_token) _ {b = tt} h in
        (
          (require_transferring-IsTransferring e.source_token).0 moving,
          elim (Bool-cases (by_permanent_delegate rt e)) [
            | inl delegate ↦ inl delegate
            | inr other ↦ inr (verify_compliance_sound e (ground (arith, rest, other)))
          ],
        )

    backward :
        IsTransferring e.source_token × ((by_permanent_delegate rt e ≡ true) ⊎ Compliant e)
        → execute rt e ≡ ok tt
    backward (moving, inl delegate) =
        ground (arith, (require_transferring-IsTransferring e.source_token).1 moving)
    backward (moving, inr c) = ground (
      arith,
      (require_transferring-IsTransferring e.source_token).1 moving,
      verify_compliance_complete e c,
    )
