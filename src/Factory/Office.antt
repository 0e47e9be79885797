-- ===== src/Factory/Office.antt =====
-- The manager of the factory: nominations, acceptances, cancellations and the pause, as one system.
use asseto_solana_programs.Prelude.{ℕ}
use asseto_solana_programs.Errors.{Result, ok, ◌>>=◌}
use asseto_solana_programs.Common.ProgramIds.{Pubkey}
use asseto_solana_programs.Common.State.{AccountInfo, loaded, try_from}
use asseto_solana_programs.Factory.{Factory, FactoryPendingManager}
use asseto_solana_programs.Factory.Instructions.{
  pause, unpause, nominate_manager, accept_nomination, cancel_nomination,
}

pub record Office : Type 0 where
  pub factory : Factory
  pub pending : AccountInfo FactoryPendingManager

-- A transaction, with its signer first.
pub data Transaction : Type 0 where
  nominate : Pubkey → Pubkey → Transaction
  accept cancel pauses unpauses : Pubkey → Transaction

unfoldable pub accepting : Factory → AccountInfo FactoryPendingManager → Pubkey → Result Office
unfolding accept_nomination
accepting f pda signer = do
  p ← try_from pda
  written ← accept_nomination f p signer
  ok (record { factory = written.0; pending = written.1 })

unfoldable pub cancelling : Factory → AccountInfo FactoryPendingManager → Pubkey → Result Office
unfolding cancel_nomination
cancelling f pda signer = do
  p ← try_from pda
  closed ← cancel_nomination f p signer
  ok (record { factory = f; pending = closed })

-- One transaction; the nomination account has the bump that Anchor finds.
unfoldable pub step : ℕ → Transaction → Office → Result Office
unfolding nominate_manager accepting cancelling pause unpause
step bump (nominate signer new_manager) w =
    nominate_manager w.factory signer bump w.pending new_manager >>= λ p.
    ok (record w { pending = loaded p })
step bump (accept signer) w = accepting w.factory w.pending signer
step bump (cancel signer) w = cancelling w.factory w.pending signer
step bump (pauses signer) w = pause w.factory signer >>= λ f. ok (record w { factory = f })
step bump (unpauses signer) w = unpause w.factory signer >>= λ f. ok (record w { factory = f })
