-- ===== src/TransferControl/Laws.antt =====
-- The check of the transfer-control mode against what the mode means.
use asseto_solana_programs.Prelude.{⊤, ◌≡◌, refl, ◌↔◌, true, false, List, [], ◌∷◌, arith, All}
use asseto_solana_programs.Errors.{ok}
use asseto_solana_programs.Common.State.{AccountInfo, empty, loaded, unreadable, data_is_empty}
use asseto_solana_programs.TransferControl.{
  TransferMode, whitelist, blacklist, TransferControlMode, ControlListStatus, verify_mode,
  verify_transfer_control_mode,
}

-- On a whitelist every account is listed; on a blacklist none is.
abbrev pub IsAllowed : TransferMode → AccountInfo ControlListStatus → Type 0
IsAllowed whitelist pda = data_is_empty pda ≡ false
IsAllowed blacklist pda = data_is_empty pda ≡ true

abbrev pub Complies :
    AccountInfo TransferControlMode → List (AccountInfo ControlListStatus) → Type 0
Complies empty pdas = ⊤
Complies (loaded m) pdas = All (IsAllowed m.mode) pdas
Complies (unreadable _) pdas = ⊥

verify_mode_sound :
    (mode : TransferMode) (pdas : List (AccountInfo ControlListStatus))
    → verify_mode mode pdas ≡ ok tt
    → All (IsAllowed mode) pdas
unfolding verify_mode
verify_mode_sound mode [] h = tt
verify_mode_sound whitelist (pda ∷ pdas) h = ground (arith, verify_mode_sound whitelist pdas)
verify_mode_sound blacklist (pda ∷ pdas) h = ground (arith, verify_mode_sound blacklist pdas)

verify_mode_complete :
    (mode : TransferMode) (pdas : List (AccountInfo ControlListStatus))
    → All (IsAllowed mode) pdas
    → verify_mode mode pdas ≡ ok tt
unfolding verify_mode
verify_mode_complete mode [] h = refl
verify_mode_complete whitelist (pda ∷ pdas) h =
    ground (arith, verify_mode_complete whitelist pdas h.1)
verify_mode_complete blacklist (pda ∷ pdas) h =
    ground (arith, verify_mode_complete blacklist pdas h.1)

-- The check passes exactly if no mode is set, or every listed account is allowed by the mode that is;
-- a mode account that does not load is refused.
pub verify_transfer_control_mode-Complies :
    (mode_pda : AccountInfo TransferControlMode) (pdas : List (AccountInfo ControlListStatus))
    → (verify_transfer_control_mode mode_pda pdas ≡ ok tt) ↔ Complies mode_pda pdas
unfolding verify_transfer_control_mode
verify_transfer_control_mode-Complies empty pdas = ((λ _. tt), (λ _. refl))
verify_transfer_control_mode-Complies (loaded m) pdas =
    (verify_mode_sound m.mode pdas, verify_mode_complete m.mode pdas)
verify_transfer_control_mode-Complies (unreadable e) pdas = ((λ h. cc), (λ h. absurd h))
