-- ===== src/Factory/Signers.antt =====
-- Who may change the manager and the nomination, and what each instruction leaves of them.
use asseto_solana_programs.Prelude.{ℕ, ◌≡◌, refl, arith}
use asseto_solana_programs.Errors.{ok}
use asseto_solana_programs.Common.ProgramIds.{Pubkey}
use asseto_solana_programs.Common.State.{AccountInfo, empty, loaded, unreadable}
use asseto_solana_programs.Factory.{
  Factory, FactoryPendingManager, require_paused, require_not_paused, verify_manager,
  verify_pending_manager,
}
use asseto_solana_programs.Factory.Instructions.{
  pause, unpause, nominate_manager, accept_nomination, cancel_nomination,
}
use asseto_solana_programs.Factory.Office.{Office, accepting, cancelling}

pub accepted_by :
    (f : Factory) (pda : AccountInfo FactoryPendingManager) (signer : Pubkey) {w : Office}
    → accepting f pda signer ≡ ok w
    → (p : FactoryPendingManager) × (pda ≡ loaded p)
      × (p.pending_manager ≡ signer)
      × (w.factory.manager ≡ signer)
      × (w.pending ≡ empty)
unfolding accepting accept_nomination require_not_paused verify_pending_manager
accepted_by f empty signer h = absurd (ground arith)
accepted_by f (loaded p) signer h = (p, refl, ground arith, ground arith, ground arith)
accepted_by f (unreadable e) signer h = absurd (ground arith)

pub cancelled_by :
    (f : Factory) (pda : AccountInfo FactoryPendingManager) (signer : Pubkey) {w : Office}
    → cancelling f pda signer ≡ ok w
    → (w.factory ≡ f) × (w.pending ≡ empty)
unfolding cancelling cancel_nomination
cancelled_by f empty signer h = absurd (ground arith)
cancelled_by f (loaded p) signer h = (ground arith, ground arith)
cancelled_by f (unreadable e) signer h = absurd (ground arith)

pub nominated_by :
    (f : Factory) (pda : AccountInfo FactoryPendingManager) (signer new_manager : Pubkey) (bump : ℕ)
    {p : FactoryPendingManager}
    → nominate_manager f signer bump pda new_manager ≡ ok p
    → (signer ≡ f.manager) × (p.pending_manager ≡ new_manager)
unfolding nominate_manager verify_manager require_not_paused
nominated_by f empty signer new_manager bump h = (ground arith, ground arith)
nominated_by f (loaded q) signer new_manager bump h = (ground arith, ground arith)
nominated_by f (unreadable e) signer new_manager bump h = absurd (ground arith)

pub paused_by :
    (f : Factory) (signer : Pubkey) {f' : Factory} → pause f signer ≡ ok f' → f'.manager ≡ f.manager
unfolding pause verify_manager require_not_paused
paused_by f signer h = ground arith

pub unpaused_by :
    (f : Factory) (signer : Pubkey) {f' : Factory}
    → unpause f signer ≡ ok f'
    → f'.manager ≡ f.manager
unfolding unpause verify_manager require_paused
unpaused_by f signer h = ground arith
