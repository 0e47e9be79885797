-- ===== src/Hold/Lien/Resolution.antt =====
-- Every hold of a reachable account can be resolved: it never stays as a lien that nothing can lift.
use asseto_solana_programs.Prelude.{
  ℕ, ◌-◌, ◌≤◌, ◌<◌, ◌≡◌, List, [], ◌∷◌, ◌++◌, refl, arith, ◌==◌, if◌then◌else◌,
}
use asseto_solana_programs.Prelude.Int.{ℤ, ◌≤ℤ◌}
use asseto_solana_programs.Errors.{ok}
use asseto_solana_programs.Common.ProgramIds.{Pubkey}
use asseto_solana_programs.Common.PdaSeeds.{Runtime}
use asseto_solana_programs.Common.State.{loaded, AssetClassVersion, HoldPosition}
use asseto_solana_programs.Common.Guards.{require_functionality}
use asseto_solana_programs.Common.Functionalities.{hold_create_hold}
use asseto_solana_programs.Common.Token.{TokenProgram}
use asseto_solana_programs.Hold.{active, closed, expired, Hold}
use asseto_solana_programs.Hold.Instructions.{
  lower_position, lower_hold, release_hold, reclaim_hold,
}
use asseto_solana_programs.Hold.Lien.{TokenLaws, Reachable}
use asseto_solana_programs.Hold.Lien.Sums.{total}
use asseto_solana_programs.Hold.Lien.Records.{held_of_loaded}
use asseto_solana_programs.Hold.Lien.Version.{IssuedUnder, Reachable-Supports}
use asseto_solana_programs.Hold.Lien.Invariant.{Reachable-IsSound}

total-append : (newer older : List Hold) (h : Hold) → h.current_amount ≤ total (newer ++ h ∷ older)
total-append [] older h = omega arith
total-append (g ∷ newer) older h = omega (arith, total-append newer older h)

release_hold_complete :
    (version : AssetClassVersion) (p : HoldPosition) (h : Hold) (amount : ℕ)
    → h.status ≡ active
    → h.current_amount ≤ p.held_amount
    → 0 < amount
    → amount ≤ h.current_amount
    → require_functionality version hold_create_hold ≡ ok tt
    → release_hold version h.escrow p h amount
      ≡ ok (
        record p { held_amount = p.held_amount - amount },
        record h {
          current_amount = h.current_amount - amount;
          status = if h.current_amount == amount then closed else active;
        },
      )
unfolding release_hold lower_position lower_hold
release_hold_complete version p h amount live lien positive within supported = ground arith

reclaim_hold_complete :
    (now : ℤ) (version : AssetClassVersion) (p : HoldPosition) (h : Hold)
    → h.status ≡ active
    → h.current_amount ≤ p.held_amount
    → h.expiration ≤ℤ now
    → require_functionality version hold_create_hold ≡ ok tt
    → reclaim_hold now version p h
      ≡ ok (
        record p { held_amount = p.held_amount - h.current_amount },
        record h { current_amount = 0; status = expired },
      )
unfolding reclaim_hold lower_position
reclaim_hold_complete now version p h live lien lapsed supported = ground arith

module _ (rt : Runtime) (tp : TokenProgram) (laws : TokenLaws tp) (mint key : Pubkey) where
  open tp use {Ledger}

  lien_within :
      (ledger : Ledger) (p : HoldPosition) (newer older : List Hold) (h : Hold)
      → Reachable rt tp mint key
          (record { ledger = ledger; position = loaded p; holds = newer ++ h ∷ older })
      → h.current_amount ≤ p.held_amount
  lien_within ledger p newer older h reached =
      let sound = Reachable-IsSound rt tp laws mint key reached in
      omega (arith, total-append newer older h, held_of_loaded p sound.records.lien)

  -- Under TokenLaws, after any history of an account in which its holds were created under the asset's
  -- version, the escrow of an active hold can release any positive part of it under that version: the lien
  -- never underflows, the version never refuses, and neither a pause nor a deactivation stands in the way.
  pub release_hold_succeeds :
      (version : AssetClassVersion) (ledger : Ledger) (p : HoldPosition) (newer older : List Hold)
      (h : Hold) (amount : ℕ)
      → (reached : Reachable rt tp mint key
          (record { ledger = ledger; position = loaded p; holds = newer ++ h ∷ older }))
      → IssuedUnder rt tp mint key version reached
      → h.status ≡ active
      → 0 < amount
      → amount ≤ h.current_amount
      → release_hold version h.escrow p h amount
        ≡ ok (
          record p { held_amount = p.held_amount - amount },
          record h {
            current_amount = h.current_amount - amount;
            status = if h.current_amount == amount then closed else active;
          },
        )
  release_hold_succeeds version ledger p newer older h amount reached issued live positive within =
      release_hold_complete version p h amount live (lien_within ledger p newer older h reached)
        positive within
        (Reachable-Supports rt tp mint key version newer older h reached issued refl)

  -- Under TokenLaws, after any history of an account in which its holds were created under the asset's
  -- version, an active hold whose expiration is not later than now can be reclaimed under that version, by
  -- whoever asks; this lifts all that is left of it from the lien.
  pub reclaim_hold_succeeds :
      (now : ℤ) (version : AssetClassVersion) (ledger : Ledger) (p : HoldPosition)
      (newer older : List Hold) (h : Hold)
      → (reached : Reachable rt tp mint key
          (record { ledger = ledger; position = loaded p; holds = newer ++ h ∷ older }))
      → IssuedUnder rt tp mint key version reached
      → h.status ≡ active
      → h.expiration ≤ℤ now
      → reclaim_hold now version p h
        ≡ ok (
          record p { held_amount = p.held_amount - h.current_amount },
          record h { current_amount = 0; status = expired },
        )
  reclaim_hold_succeeds now version ledger p newer older h reached issued live lapsed =
      reclaim_hold_complete now version p h live (lien_within ledger p newer older h reached) lapsed
        (Reachable-Supports rt tp mint key version newer older h reached issued refl)
