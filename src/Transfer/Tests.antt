-- ===== src/Transfer/Tests.antt =====
-- A batch of two transfers over balances that the test keeps.
use asseto_solana_programs.Prelude.{◌≡◌, refl, [], ◌∷◌, update}
use asseto_solana_programs.Errors.{transfer, TransferError, ok, err}
use asseto_solana_programs.Common.HookAccounts.{constrained}
use asseto_solana_programs.Common.Examples.{runtime, mint_state, move, Book, book}
use asseto_solana_programs.TransferHook.Metas.Resolution.{pda}
use asseto_solana_programs.TransferHook.Metas.Tests.{configuration, data_of, resolver}
use asseto_solana_programs.Transfer.{
  HookedTransfers, BatchTransferTokens, hook_accounts, transfer_leg, transfer_legs, batch_transfer,
}
use asseto_solana_programs.Operations.{controller_hook_accounts, hold_hook_accounts}
use asseto_solana_programs.Common.PdaSeeds.{control_list_seeds}
use asseto_solana_programs.Common.ProgramIds.{transfer_control_program_id}
use asseto_solana_programs.Transfer.Forwarding.{Serves, hook_accounts-Serves}

abbrev tokens : HookedTransfers
tokens = record {
  Ledger = Book;
  mint_state = λ mint ledger. ok (mint_state ledger.supply);
  transfer_checked = λ source mint destination authority amount decimals. ok (record {
    source = source;
    mint = mint;
    destination = destination;
    authority = authority;
    amount = amount;
    decimals = decimals;
    accounts = [];
  });
  invoke = λ ix infos ledger. move ix.source ix.destination ix.amount ledger;
}

abbrev batch : BatchTransferTokens
batch = record { source_owner = 9; source = 20; mint = 7; asset_configuration = configuration }

moved :
    batch_transfer runtime tokens batch (30 ∷ 5 ∷ []) (21 ∷ 100 ∷ 22 ∷ 101 ∷ []) book
    ≡ ok (record {
      supply = 50;
      balance = update (update (update (update book.balance 20 20) 21 30) 20 15) 22 5;
    })
unfolding batch_transfer transfer_legs transfer_leg hook_accounts constrained
moved = refl

one_account_short :
    batch_transfer runtime tokens batch (30 ∷ 5 ∷ []) (21 ∷ 100 ∷ 22 ∷ []) book
    ≡ err (transfer TransferError.invalid_remaining_accounts)
unfolding batch_transfer
one_account_short = refl

hook_accounts-Serves_example :
    Serves runtime data_of resolver 20 7 21 9 configuration (
      hook_accounts runtime batch
        (pda runtime (control_list_seeds 7 21) transfer_control_program_id))
    × Serves runtime data_of resolver 20 7 21 33 configuration
        (controller_hook_accounts runtime 7 20 21 configuration)
    × Serves runtime data_of resolver 20 7 21 33 configuration
        (hold_hook_accounts runtime 7 20 21 configuration)
hook_accounts-Serves_example = hook_accounts-Serves runtime data_of resolver batch 21 33 refl
