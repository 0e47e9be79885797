-- ===== src/Pause/Lifecycle.antt =====
-- The life of an asset: active or paused in turn, until it is deactivated for good.
use asseto_solana_programs.Prelude.{ℕ, ◌≡◌, refl, ap, ◌∙◌, ◌⊎◌, inl, inr, Bool, true, false, arith}
use asseto_solana_programs.Errors.{Result, ok, require, >>-eq-ok, external, constraint_failed}
use asseto_solana_programs.Common.ProgramIds.{Pubkey}
use asseto_solana_programs.Common.PdaSeeds.{Runtime}
use asseto_solana_programs.Common.State.{AccountInfo, loaded, data_is_empty, MintState}
use asseto_solana_programs.Common.Guards.{
  require_active, require_not_paused, require_functionality, require_role,
}
use asseto_solana_programs.Common.Token.{TokenProgram}
use asseto_solana_programs.Common.Roles.{role_pauser, role_deactivate}
use asseto_solana_programs.Common.Functionalities.{pause_pause, pause_unpause}
use asseto_solana_programs.Pause.{
  DeactivateStatus, Operator, pausable_authority, pause, unpause, deactivate,
}

-- A mint that unpacks, with the flag of its pausable extension.
abbrev pub IsPaused : Bool → Result MintState → Type 0
IsPaused flag mint = (m : MintState) × (mint ≡ ok m) × (m.paused ≡ ok flag)

-- What Token-2022 documents of the pausable extension.
pub record PauseLaws (tp : TokenProgram) : Type 0 where
  pub pause_pauses :
      (mint authority : Pubkey) (l : tp.Ledger) {l' : tp.Ledger}
      → tp.pause mint authority l ≡ ok l'
      → IsPaused true (tp.mint_state mint l')
  pub resume_resumes :
      (mint authority : Pubkey) (l : tp.Ledger) {l' : tp.Ledger}
      → tp.resume mint authority l ≡ ok l'
      → IsPaused false (tp.mint_state mint l')

module _ (rt : Runtime) (tp : TokenProgram) (mint : Pubkey) where
  open tp use {Ledger}

  pub record Asset : Type 0 where
    pub ledger : Ledger
    pub deactivate_pda : AccountInfo DeactivateStatus

  abbrev pub paused_flag : Asset → Result MintState
  paused_flag w = tp.mint_state mint w.ledger

  -- The instructions of the two programs, and any other that leaves the pausable extension as it is:
  -- Token-2022 changes it for the authority alone, which is an address of the pause program.
  pub data Step : Asset → Asset → Type 0 where
    by_pause :
        (o : Operator) (w : Asset) {l' : Ledger}
        → pause rt tp mint o w.deactivate_pda w.ledger ≡ ok l'
        → Step w (record w { ledger = l' })
    by_unpause :
        (o : Operator) (w : Asset) {l' : Ledger}
        → unpause rt tp mint o w.deactivate_pda w.ledger ≡ ok l'
        → Step w (record w { ledger = l' })
    by_deactivate :
        (o : Operator) (bump : ℕ) (w : Asset) {s : DeactivateStatus}
        → deactivate rt tp mint o bump w.deactivate_pda w.ledger ≡ ok s
        → Step w (record w { deactivate_pda = loaded s })
    by_other :
        (w : Asset) (l' : Ledger)
        → ((flag : Bool)
            → IsPaused flag (tp.mint_state mint w.ledger)
            → IsPaused flag (tp.mint_state mint l'))
        → Step w (record w { ledger = l' })

  pub data Steps : Asset → Asset → Type 0 where
    stay : {w : Asset} → Steps w w
    more : {w w' w'' : Asset} → Step w w' → Steps w' w'' → Steps w w''

  -- Active and not paused, active and paused, or deactivated and not paused.
  abbrev pub IsLive : Asset → Type 0
  IsLive w =
      ((data_is_empty w.deactivate_pda ≡ true) × ((flag : Bool) × IsPaused flag (paused_flag w)))
      ⊎ ((data_is_empty w.deactivate_pda ≡ false) × IsPaused false (paused_flag w))

  active :
      (pda : AccountInfo DeactivateStatus) → require_active pda ≡ ok tt → data_is_empty pda ≡ true
  unfolding require_active
  active pda h = ground (arith, h)

  not-IsPaused :
      (flag : Bool) (m : Result MintState)
      → require_not_paused m ≡ ok tt
      → IsPaused flag m
      → IsPaused false m
  unfolding require_not_paused
  not-IsPaused false m h now = now
  not-IsPaused true m h (s, e, p) = absurd (ground (arith, h, e, p))

  pause_facts :
      (o : Operator) (w : Asset) {l' : Ledger}
      → pause rt tp mint o w.deactivate_pda w.ledger ≡ ok l'
      → (data_is_empty w.deactivate_pda ≡ true)
        × (tp.pause mint (pausable_authority rt mint) w.ledger ≡ ok l')
  unfolding pause
  pause_facts o w {l'} h =
      let (_, h1) = >>-eq-ok (require_role o.authority_roles_pda role_pauser) _ {b = l'} h in
      let (live, h2) = >>-eq-ok (require_active w.deactivate_pda) _ {b = l'} h1 in
      let (_, h3) =
        >>-eq-ok (require_functionality o.asset_class_version_pda pause_pause) _ {b = l'} h2 in
      (active w.deactivate_pda live, h3)

  unpause_facts :
      (o : Operator) (w : Asset) {l' : Ledger}
      → unpause rt tp mint o w.deactivate_pda w.ledger ≡ ok l'
      → (data_is_empty w.deactivate_pda ≡ true)
        × (tp.resume mint (pausable_authority rt mint) w.ledger ≡ ok l')
  unfolding unpause
  unpause_facts o w {l'} h =
      let (_, h1) = >>-eq-ok (require_role o.authority_roles_pda role_pauser) _ {b = l'} h in
      let (live, h2) = >>-eq-ok (require_active w.deactivate_pda) _ {b = l'} h1 in
      let (_, h3) =
        >>-eq-ok (require_functionality o.asset_class_version_pda pause_unpause) _ {b = l'} h2 in
      (active w.deactivate_pda live, h3)

  deactivate_facts :
      (o : Operator) (bump : ℕ) (w : Asset) {s : DeactivateStatus}
      → deactivate rt tp mint o bump w.deactivate_pda w.ledger ≡ ok s
      → (data_is_empty w.deactivate_pda ≡ true) × (require_not_paused (paused_flag w) ≡ ok tt)
  unfolding deactivate
  deactivate_facts o bump w {s} h =
      let (free, h1) =
        >>-eq-ok (require (data_is_empty w.deactivate_pda) (external constraint_failed)) _ {b = s}
          h in
      let (_, h2) = >>-eq-ok (require_role o.authority_roles_pda role_deactivate) _ {b = s} h1 in
      let (runs, _) = >>-eq-ok (require_not_paused (paused_flag w)) _ {b = s} h2 in
      (ground (arith, free), runs)

  some_flag : (w : Asset) → IsLive w → (flag : Bool) × IsPaused flag (paused_flag w)
  some_flag w (inl (_, known)) = known
  some_flag w (inr (_, runs)) = (false, runs)

  -- The marker of a deactivated asset stays.
  abbrev pub KeepsMarker : Asset → Asset → Type 0
  KeepsMarker w w' = data_is_empty w.deactivate_pda ≡ false → w'.deactivate_pda ≡ w.deactivate_pda

  clash : {b : Bool} → b ≡ true → b ≡ false → ⊥
  clash h k = cc

  step-IsLive : PauseLaws tp → {w w' : Asset} → Step w w' → IsLive w → IsLive w' × KeepsMarker w w'
  step-IsLive laws (by_pause o w h) live =
      let (here, run) = pause_facts o w h in
      (
        inl (here, (true, laws.pause_pauses mint (pausable_authority rt mint) w.ledger run)),
        λ _. refl,
      )
  step-IsLive laws (by_unpause o w h) live =
      let (here, run) = unpause_facts o w h in
      (
        inl (here, (false, laws.resume_resumes mint (pausable_authority rt mint) w.ledger run)),
        λ _. refl,
      )
  step-IsLive laws (by_deactivate o bump w h) live =
      let (here, runs) = deactivate_facts o bump w h in
      let (flag, known) = some_flag w live in
      (inr (refl, not-IsPaused flag (paused_flag w) runs known), λ gone. absurd (clash here gone))
  step-IsLive laws (by_other w l' same) (inl (here, (flag, known))) =
      (inl (here, (flag, same flag known)), λ _. refl)
  step-IsLive laws (by_other w l' same) (inr (gone, runs)) =
      (inr (gone, same false runs), λ _. refl)

  -- From an asset that is active or paused, or deactivated and not paused, every history leads to one of
  -- these: an asset is never deactivated while paused, or paused after. Once deactivated it stays so.
  pub Steps-IsLive :
      PauseLaws tp → {w w' : Asset} → Steps w w' → IsLive w → IsLive w' × KeepsMarker w w'
  Steps-IsLive laws stay live = (live, λ _. refl)
  Steps-IsLive laws (more {w} {w'} {w''} step rest) live =
      let (next, kept) = step-IsLive laws step live in
      let (last, later) = Steps-IsLive laws rest next in
      (last, λ gone. let e = kept gone in later (ap data_is_empty e ∙ gone) ∙ e)
