-- ===== src/Hold/Lien/Sums.antt =====
-- The holds of one account as a whole: their total, their numbers, and one of them replaced.
use asseto_solana_programs.Prelude.{
  ℕ, suc, ⊤, ◌+◌, ◌-◌, ◌≤◌, ◌<◌, ◌≡◌, refl, ap, sym, ◌∙◌, List, [], ◌∷◌, arith, length, All, ◌==◌,
  if◌then◌else◌,
}
use asseto_solana_programs.Common.State.{HoldPosition}
use asseto_solana_programs.Hold.{HoldStatus, active, expired, closed, Hold}
use asseto_solana_programs.Hold.Outcome.{Lowers}
use asseto_solana_programs.Hold.Lien.{Replaced, here, there}

-- What is still committed: a hold that is no longer active has nothing left.
abbrev pub total : List Hold → ℕ
total [] = 0
total (h ∷ hs) = h.current_amount + total hs

abbrev pub Matches : HoldStatus → ℕ → Type 0
Matches active n = 0 < n
Matches expired n = n ≡ 0
Matches closed n = n ≡ 0

-- A hold is active exactly while something is left of it.
abbrev pub IsValid : Hold → Type 0
IsValid h = Matches h.status h.current_amount × (h.current_amount ≤ h.initial_amount)

-- The holds are numbered from 1 in the order of their creation.
abbrev pub Numbered : List Hold → Type 0
Numbered [] = ⊤
Numbered (h ∷ hs) = (h.hold_id ≡ suc (length hs)) × Numbered hs

module _ {h h' : Hold} where
  pub length-Replaced : {hs hs' : List Hold} → Replaced h h' hs hs' → length hs' ≡ length hs
  length-Replaced (here hs) = refl
  length-Replaced (there g r) = ap suc (length-Replaced r)

  pub total-Replaced :
      {hs hs' : List Hold}
      → Replaced h h' hs hs'
      → total hs' + h.current_amount ≡ total hs + h'.current_amount
  total-Replaced (here hs) = omega arith
  total-Replaced (there g r) = omega (arith, total-Replaced r)

  pub Numbered-Replaced :
      {hs hs' : List Hold}
      → Replaced h h' hs hs'
      → h'.hold_id ≡ h.hold_id
      → Numbered hs
      → Numbered hs'
  Numbered-Replaced (here hs) e (n, ns) = (e ∙ n, ns)
  Numbered-Replaced (there g r) e (n, ns) =
      (n ∙ ap suc (sym (length-Replaced r)), Numbered-Replaced r e ns)

  pub All-Replaced :
      {hs hs' : List Hold} → Replaced h h' hs hs' → IsValid h' → All IsValid hs → All IsValid hs'
  All-Replaced (here hs) v (_, vs) = (v, vs)
  All-Replaced (there g r) v (w, vs) = (w, All-Replaced r v vs)

  pub All-before : {hs hs' : List Hold} → Replaced h h' hs hs' → All IsValid hs → IsValid h
  All-before (here hs) (v, vs) = v
  All-before (there g r) (v, vs) = All-before r vs

  pub total-within : {hs hs' : List Hold} → Replaced h h' hs hs' → h.current_amount ≤ total hs
  total-within (here hs) = omega arith
  total-within (there g r) = omega (arith, total-within r)

-- A lowered hold is still valid.
Lowers-status :
    (current amount : ℕ)
    → amount ≤ current
    → Matches (if current == amount then closed else active) (current - amount)
Lowers-status current amount h = ground arith

pub Lowers-IsValid :
    {p p' : HoldPosition} {h h' : Hold} {amount : ℕ}
    → Lowers p h amount p' h'
    → IsValid h
    → IsValid h'
Lowers-IsValid {h = h} {h' = h'} {amount = amount} l (m, below) =
    rw l.hold_after (Lowers-status h.current_amount amount l.within_hold, omega (arith, below))
