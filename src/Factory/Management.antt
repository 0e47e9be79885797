-- ===== src/Factory/Management.antt =====
-- How the management of the factory passes on.
use asseto_solana_programs.Prelude.{ℕ, ◌≡◌, sym, ◌∙◌, ap, subst, List, [], ◌∷◌}
use asseto_solana_programs.Errors.{ok, >>=-eq-ok, ok_inj}
use asseto_solana_programs.Common.ProgramIds.{Pubkey}
use asseto_solana_programs.Common.State.{empty, loaded}
use asseto_solana_programs.Factory.{FactoryPendingManager}
use asseto_solana_programs.Factory.Instructions.{pause, unpause, nominate_manager}
use asseto_solana_programs.Factory.Office.{
  Office, Transaction, nominate, accept, cancel, pauses, unpauses, step,
}
use asseto_solana_programs.Factory.Signers.{
  accepted_by, cancelled_by, nominated_by, paused_by, unpaused_by,
}

-- A transaction of the log, whose newest entry is first.
pub data In (t : Transaction) : List Transaction → Type 0 where
  newest : {log : List Transaction} → In t (t ∷ log)
  older : {log : List Transaction} {u : Transaction} → In t log → In t (u ∷ log)

-- How the office passes on: each manager was nominated by one before, and accepted.
pub data Line (log : List Transaction) : Pubkey → Pubkey → Type 0 where
  same : {m : Pubkey} → Line log m m
  succeeded :
      {m n k : Pubkey} → Line log m n → In (nominate n k) log → In (accept k) log → Line log m k

line_older :
    {log : List Transaction} {u : Transaction} {m n : Pubkey} → Line log m n → Line (u ∷ log) m n
line_older same = same
line_older (succeeded l a b) = succeeded (line_older l) (older a) (older b)

-- An open nomination is one that the manager in office made.
abbrev pub IsOwnNomination : List Transaction → Office → Type 0
IsOwnNomination log w =
    (p : FactoryPendingManager)
    → w.pending ≡ loaded p
    → In (nominate w.factory.manager p.pending_manager) log

-- The transactions in a row, the newest of the log last.
pub data Run (bump : ℕ) (start : Office) : List Transaction → Office → Type 0 where
  begin : Run bump start [] start
  next :
      {log : List Transaction} {t : Transaction} {w w' : Office}
      → Run bump start log w
      → step bump t w ≡ ok w'
      → Run bump start (t ∷ log) w'

-- What holds of the office after a log, from the manager that it began with.
abbrev IsHeld : Pubkey → List Transaction → Office → Type 0
IsHeld first log w = Line log first w.factory.manager × IsOwnNomination log w

none_open : {log : List Transaction} (w : Office) → w.pending ≡ empty → IsOwnNomination log w
none_open w closed p at = absurd cc

-- A transaction that changes neither the manager nor the nomination.
unchanged :
    (first : Pubkey) (log : List Transaction) (t : Transaction) (w w' : Office)
    → w'.factory.manager ≡ w.factory.manager
    → w'.pending ≡ w.pending
    → IsHeld first log w
    → IsHeld first (t ∷ log) w'
unchanged first log t w w' manager pending (line, own) = (
  subst (λ m. Line (t ∷ log) first m) (sym manager) (line_older line),
  λ p at.
      subst (λ m. In (nominate m p.pending_manager) (t ∷ log)) (sym manager)
        (older (own p (sym pending ∙ at))),
)

nominated :
    (log : List Transaction) (signer new_manager : Pubkey) (w w' : Office)
    (p q : FactoryPendingManager)
    → signer ≡ w.factory.manager
    → p.pending_manager ≡ new_manager
    → record w { pending = loaded p } ≡ w'
    → w'.pending ≡ loaded q
    → In (nominate w'.factory.manager q.pending_manager) (nominate signer new_manager ∷ log)
nominated log signer new_manager w w' p q mine named e at =
    let manager : w.factory.manager ≡ w'.factory.manager = ap (λ x. x.factory.manager) e in
    let nominee : loaded p ≡ loaded q = ap (λ x. x.pending) e ∙ at in
    let t : nominate signer new_manager ≡ nominate w'.factory.manager q.pending_manager = cc in
    subst (λ t. In t (nominate signer new_manager ∷ log)) t newest

step-IsHeld :
    (bump : ℕ) (first : Pubkey) (log : List Transaction) (t : Transaction) (w : Office)
    {w' : Office}
    → step bump t w ≡ ok w'
    → IsHeld first log w
    → IsHeld first (t ∷ log) w'
unfolding step
step-IsHeld bump first log (nominate signer new_manager) w {w'} h (line, own) =
    let (p, e, out) =
      >>=-eq-ok (nominate_manager w.factory signer bump w.pending new_manager) _ {b = w'} h in
    let (mine, named) = nominated_by w.factory w.pending signer new_manager bump e in
    (
      subst (λ x. Line (nominate signer new_manager ∷ log) first x.factory.manager) (ok_inj out)
          (line_older line),
      λ q at. nominated log signer new_manager w w' p q mine named (ok_inj out) at,
    )
step-IsHeld bump first log (accept signer) w {w'} h (line, own) =
    let (p, open_for, named, manager, closed) = accepted_by w.factory w.pending signer h in
    (
      subst (λ m. Line (accept signer ∷ log) first m) (sym manager)
          (succeeded (line_older line)
            (older (subst (λ m. In (nominate w.factory.manager m) log) named (own p open_for)))
            newest),
      none_open w' closed,
    )
step-IsHeld bump first log (cancel signer) w {w'} h (line, own) =
    let (same_factory, closed) = cancelled_by w.factory w.pending signer h in
    (
      subst (λ f. Line (cancel signer ∷ log) first f.manager) (sym same_factory) (line_older line),
      none_open w' closed,
    )
step-IsHeld bump first log (pauses signer) w {w'} h held =
    let (f, e, out) = >>=-eq-ok (pause w.factory signer) _ {b = w'} h in
    unchanged first log (pauses signer) w w'
      (sym (ap (λ x. x.factory.manager) (ok_inj out)) ∙ paused_by w.factory signer e)
      (sym (ap (λ x. x.pending) (ok_inj out))) held
step-IsHeld bump first log (unpauses signer) w {w'} h held =
    let (f, e, out) = >>=-eq-ok (unpause w.factory signer) _ {b = w'} h in
    unchanged first log (unpauses signer) w w'
      (sym (ap (λ x. x.factory.manager) (ok_inj out)) ∙ unpaused_by w.factory signer e)
      (sym (ap (λ x. x.pending) (ok_inj out))) held

-- From an office without an open nomination, after any transactions: the manager is the first one, or
-- came to office by a chain in which each was nominated by the one before and accepted; and an open
-- nomination is the present manager's own.
pub Run-IsHeld :
    (bump : ℕ) (start : Office) (log : List Transaction) {w : Office}
    → start.pending ≡ empty
    → Run bump start log w
    → Line log start.factory.manager w.factory.manager × IsOwnNomination log w
Run-IsHeld bump start [] closed begin = (same, none_open start closed)
Run-IsHeld bump start (t ∷ log) closed (next {w} before h) =
    step-IsHeld bump start.factory.manager log t w h (Run-IsHeld bump start log closed before)
