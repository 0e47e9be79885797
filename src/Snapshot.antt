-- ===== src/Snapshot.antt =====
-- programs/snapshot/src: the snapshots of a mint's balances, each the root of a Merkle tree.
use asseto_solana_programs.Prelude.{ℕ, ⊤, Bytes, checked_add, ◌==◌, if◌then◌else◌, update}
use asseto_solana_programs.Errors.{
  external, constraint_failed, snapshot, SnapshotError, snapshot_counter_overflow, Result, ok, err,
  ◌>>=◌, ◌>>◌, require, ok_or,
}
use asseto_solana_programs.Common.ProgramIds.{Pubkey, coupon_program_id}
use asseto_solana_programs.Common.PdaSeeds.{Runtime, coupon_authority_seeds}
use asseto_solana_programs.Common.State.{AccountInfo, empty, loaded, unreadable, data_is_empty}

-- `count` is the id of the next snapshot.
pub record SnapshotCounter : Type 0 where
  pub bump : ℕ
  pub count : ℕ

pub record SnapshotMerkleRoot : Type 0 where
  pub bump : ℕ
  pub merkle_root : Bytes

-- The accounts of one mint: the counter, and the roots by the id in their seeds.
pub record Snapshots : Type 0 where
  pub snapshot_counter : AccountInfo SnapshotCounter
  pub snapshot_merkle_root : ℕ → AccountInfo SnapshotMerkleRoot

-- The bumps that Anchor found for the two accounts.
pub record SnapshotBumps : Type 0 where
  pub snapshot_counter : ℕ
  pub snapshot_merkle_root : ℕ

-- `init_if_needed`: a new account holds zeros.
unfoldable pub snapshot_counter_or_init : AccountInfo SnapshotCounter → Result SnapshotCounter
snapshot_counter_or_init empty = ok (record { bump = 0; count = 0 })
snapshot_counter_or_init (loaded counter) = ok counter
snapshot_counter_or_init (unreadable e) = err e

unfoldable pub assert_take_snapshot_authorized_caller : Runtime → Pubkey → Pubkey → Result ⊤
assert_take_snapshot_authorized_caller rt mint_key caller =
    let (expected, _) =
      rt.find_program_address (coupon_authority_seeds mint_key) coupon_program_id in
    require (expected == caller) (snapshot SnapshotError.unauthorized)

-- The root is an `init` account at the seeds of the counter's value.
unfoldable pub take_snapshot :
    Runtime → Pubkey → Pubkey → SnapshotBumps → Bytes → Snapshots → Result Snapshots
unfolding snapshot_counter_or_init assert_take_snapshot_authorized_caller
take_snapshot rt mint calling_authority bumps merkle_root s = do
  counter ← snapshot_counter_or_init s.snapshot_counter
  require (data_is_empty (s.snapshot_merkle_root counter.count)) (external constraint_failed)
  assert_take_snapshot_authorized_caller rt mint calling_authority
  next ← ok_or (checked_add counter.count 1) (snapshot snapshot_counter_overflow)
  ok (record {
    snapshot_counter = loaded (record {
      bump = if counter.count == 0 then bumps.snapshot_counter else counter.bump;
      count = next;
    });
    snapshot_merkle_root =
        update s.snapshot_merkle_root counter.count
          (loaded (record { bump = bumps.snapshot_merkle_root; merkle_root = merkle_root }));
  })
