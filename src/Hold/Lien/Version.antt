-- ===== src/Hold/Lien/Version.antt =====
-- The version of the asset under which the holds of an account were created. programs/deploy fixes it
-- in the asset's configuration, and no program changes it there.
use asseto_solana_programs.Prelude.{⊤, ◌≡◌, subst, List, [], ◌∷◌, ◌++◌, sym, arith}
use asseto_solana_programs.Prelude.Int.{ℤ}
use asseto_solana_programs.Errors.{ok}
use asseto_solana_programs.Common.ProgramIds.{Pubkey}
use asseto_solana_programs.Common.PdaSeeds.{Runtime}
use asseto_solana_programs.Common.State.{AssetClassVersion, HoldPosition}
use asseto_solana_programs.Common.Guards.{AssetAccounts, require_functionality}
use asseto_solana_programs.Common.Functionalities.{hold_create_hold}
use asseto_solana_programs.Common.Token.{TokenProgram}
use asseto_solana_programs.Hold.{Hold, NewHoldArgs}
use asseto_solana_programs.Hold.Instructions.{CreateHold, create_hold, controller_create_hold}
use asseto_solana_programs.Hold.Lien.{
  Replaced, here, there, World, Step, create, controller_create, release, reclaim, settle, transfer,
  forced_transfer, burning, batch_burning, receive, Reachable, start, step,
}

abbrev pub Supports : AssetClassVersion → Type 0
Supports version = require_functionality version hold_create_hold ≡ ok tt

create_hold-Supports :
    (now : ℤ) (a : AssetAccounts) (c : CreateHold) (args : NewHoldArgs) {p : HoldPosition}
    {h : Hold}
    → create_hold now a c args ≡ ok (p, h)
    → Supports a.asset_class_version_pda
unfolding create_hold
create_hold-Supports now a c args e = ground arith

controller_create_hold-Supports :
    (now : ℤ) (a : AssetAccounts) (c : CreateHold) (args : NewHoldArgs) {p : HoldPosition}
    {h : Hold}
    → controller_create_hold now a c args ≡ ok (p, h)
    → Supports a.asset_class_version_pda
unfolding controller_create_hold
controller_create_hold-Supports now a c args e = ground arith

abbrev HasHolds : List Hold → Type 0
HasHolds [] = ⊥
HasHolds (_ ∷ _) = ⊤

had_holds : {h h' : Hold} {hs hs' : List Hold} → Replaced h h' hs hs' → HasHolds hs' → HasHolds hs
had_holds (here hs) n = tt
had_holds (there g r) n = tt

module _ (rt : Runtime) (tp : TokenProgram) (mint key : Pubkey) where
  -- The instructions that create a hold are under the version; the others need not be.
  abbrev CreatesUnder :
      AssetClassVersion → {w w' : World rt tp mint key} → Step rt tp mint key w w' → Type 0
  CreatesUnder version (create now a c args ledger holds m u e) =
      a.asset_class_version_pda ≡ version
  CreatesUnder version (controller_create now a c args ledger holds m u e) =
      a.asset_class_version_pda ≡ version
  CreatesUnder version _ = ⊤

  -- Every hold of a history was created under the version.
  abbrev pub IssuedUnder :
      AssetClassVersion → {w : World rt tp mint key} → Reachable rt tp mint key w → Type 0
  IssuedUnder version (start ledger s u) = ⊤
  IssuedUnder version (step before s) = IssuedUnder version before × CreatesUnder version s

  step-Supports :
      (version : AssetClassVersion) {w w' : World rt tp mint key} (s : Step rt tp mint key w w')
      → CreatesUnder version s
      → (HasHolds w.holds → Supports version)
      → HasHolds w'.holds
      → Supports version
  step-Supports version (create now a c args ledger holds m u e) under before n =
      subst Supports under (create_hold-Supports now a c args e)
  step-Supports version (controller_create now a c args ledger holds m u e) under before n =
      subst Supports under (controller_create_hold-Supports now a c args e)
  step-Supports version (release v escrow p h amount ledger e x) under before n =
      before (had_holds x n)
  step-Supports version (reclaim now v p h ledger e x) under before n = before (had_holds x n)
  step-Supports version (settle now a c p h amount ledger m k e x) under before n =
      before (had_holds x n)
  step-Supports version (transfer e ledger ledger' holds u d p) under before n = before n
  step-Supports version (forced_transfer a position to amount ledger holds e) under before n =
      before n
  step-Supports version (burning a position amount ledger holds e) under before n = before n
  step-Supports version (batch_burning r amount ledger holds e) under before n = before n
  step-Supports version (receive position ledger ledger' holds s s' u u' m) under before n =
      before n

  some_hold-Supports :
      (version : AssetClassVersion) {w : World rt tp mint key}
      (reached : Reachable rt tp mint key w)
      → IssuedUnder version reached
      → HasHolds w.holds
      → Supports version
  some_hold-Supports version (start ledger s u) under n = absurd n
  some_hold-Supports version (step before s) (under, last) n =
      step-Supports version s last (some_hold-Supports version before under) n

  has_holds : (newer older : List Hold) (h : Hold) → HasHolds (newer ++ h ∷ older)
  has_holds [] older h = tt
  has_holds (g ∷ newer) older h = tt

  -- An account with a hold shows that the version of its history supports holds.
  pub Reachable-Supports :
      (version : AssetClassVersion) {w : World rt tp mint key} (newer older : List Hold) (h : Hold)
      (reached : Reachable rt tp mint key w)
      → IssuedUnder version reached
      → w.holds ≡ newer ++ h ∷ older
      → Supports version
  Reachable-Supports version newer older h reached under e =
      some_hold-Supports version reached under (subst HasHolds (sym e) (has_holds newer older h))
