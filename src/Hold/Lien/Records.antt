-- ===== src/Hold/Lien/Records.antt =====
-- What a hold position records of its holds, and that each instruction keeps it so.
use asseto_solana_programs.Prelude.{ℕ, ◌+◌, ◌≤◌, ◌≡◌, ap, List, ◌∷◌, arith, length, All}
use asseto_solana_programs.Errors.{Result, ok}
use asseto_solana_programs.Common.State.{
  AccountInfo, empty, loaded, unreadable, HoldPosition, TokenAccount,
}
use asseto_solana_programs.Common.Guards.{held_amount}
use asseto_solana_programs.Hold.{Hold, NewHoldArgs}
use asseto_solana_programs.Hold.Instructions.{init_if_needed, CreateHold}
use asseto_solana_programs.Hold.Creation.{Created}
use asseto_solana_programs.Hold.Outcome.{Lowers}
use asseto_solana_programs.Hold.Lien.{Replaced}
use asseto_solana_programs.Hold.Lien.Sums.{
  total, IsValid, Numbered, length-Replaced, total-Replaced, Numbered-Replaced, All-Replaced,
  All-before, Lowers-IsValid,
}

abbrev pub count_of : AccountInfo HoldPosition → ℕ
count_of empty = 0
count_of (loaded p) = p.hold_count
count_of (unreadable _) = 0

-- The position records the holds: their number, and their sum as the lien.
pub record Records (position : AccountInfo HoldPosition) (holds : List Hold) : Type 0 where
  pub lien : held_amount position ≡ ok (total holds)
  pub count : count_of position ≡ length holds
  pub numbered : Numbered holds
  pub valid : All IsValid holds

-- A balance of at least `n`.
abbrev pub Covers : Result TokenAccount → ℕ → Type 0
Covers token_account n = (s : TokenAccount) × (token_account ≡ ok s) × (n ≤ s.amount)

pub held_of_loaded : (p : HoldPosition) {n : ℕ} → held_amount (loaded p) ≡ ok n → p.held_amount ≡ n
unfolding held_amount
held_of_loaded p h = ground arith

pub loaded_lien : (p : HoldPosition) {n : ℕ} → p.held_amount ≡ n → held_amount (loaded p) ≡ ok n
unfolding held_amount
loaded_lien p h = ap ok h

pub initial_lien :
    (position : AccountInfo HoldPosition) {p : HoldPosition} {n : ℕ}
    → init_if_needed position ≡ ok p
    → held_amount position ≡ ok n
    → (p.held_amount ≡ n) × (p.hold_count ≡ count_of position)
unfolding held_amount init_if_needed
initial_lien empty e h = (ground arith, ground arith)
initial_lien (loaded q) e h = (ground arith, ground arith)
initial_lien (unreadable x) e h = cc

pub Created-Records :
    (c : CreateHold) (args : NewHoldArgs) {p' : HoldPosition} {h : Hold} (holds : List Hold)
    → Created c args p' h
    → Records c.hold_position holds
    → Records (loaded p') (h ∷ holds) × (total (h ∷ holds) ≤ c.token_account.amount)
Created-Records c args {p'} {h} holds (p, ep, k) r =
    let (lien, count) = initial_lien c.hold_position ep r.lien in
    (
      record {
        lien = loaded_lien p' (omega (arith, k.lien_after, lien, k.whole));
        count = omega (arith, k.count_after, count, r.count);
        numbered = (omega (arith, k.number, count, r.count), r.numbered);
        valid = (
          (rw k.is_active (omega (arith, k.whole, k.positive)), omega (arith, k.whole, k.initial)),
          r.valid,
        );
      },
      omega (arith, k.free, lien, k.whole),
    )

-- One hold lowered by what the lien is lowered by.
pub Lowered-Records :
    {p p' : HoldPosition} {h h' : Hold} (amount : ℕ) {holds holds' : List Hold}
    → p'.held_amount + amount ≡ p.held_amount
    → p'.hold_count ≡ p.hold_count
    → h'.current_amount + amount ≡ h.current_amount
    → h'.hold_id ≡ h.hold_id
    → IsValid h'
    → Replaced h h' holds holds'
    → Records (loaded p) holds
    → Records (loaded p') holds' × (total holds' + amount ≡ total holds)
Lowered-Records {p = p} {p' = p'} amount e count eh number v x r =
    let moved = total-Replaced x in
    let lien = held_of_loaded p r.lien in
    (
      record {
        lien = loaded_lien p' (omega (arith, e, eh, moved, lien));
        count = omega (arith, count, r.count, length-Replaced x);
        numbered = Numbered-Replaced x number r.numbered;
        valid = All-Replaced x v r.valid;
      },
      omega (arith, eh, moved),
    )

pub Lowers-Records :
    {p p' : HoldPosition} {h h' : Hold} {amount : ℕ} {holds holds' : List Hold}
    → Lowers p h amount p' h'
    → Replaced h h' holds holds'
    → Records (loaded p) holds
    → Records (loaded p') holds' × (total holds' + amount ≡ total holds)
Lowers-Records {amount = amount} l x r =
    Lowered-Records amount (omega (arith, ap (λ q. q.held_amount) l.position_after, l.within_lien))
      (ap (λ q. q.hold_count) l.position_after)
      (omega (arith, ap (λ q. q.current_amount) l.hold_after, l.within_hold))
      (ap (λ q. q.hold_id) l.hold_after) (Lowers-IsValid l (All-before x r.valid)) x r
