-- ===== src/AccessControl.antt =====
-- programs/access-control/src/instructions: who may do what on a mint.
pub mod Laws
pub mod Initial
mod Tests
use asseto_solana_programs.Prelude.{ℕ, ⊤, Bool, Option, none, some, List, [], ◌∷◌, Bytes, replicate}
use asseto_solana_programs.Errors.{
  external, constraint_failed, access_control, AccessControlError, Result, ok, err, ◌>>=◌, ◌>>◌,
  require,
}
use asseto_solana_programs.Common.ProgramIds.{Pubkey, deploy_program_id}
use asseto_solana_programs.Common.PdaSeeds.{Runtime, temp_mint_authority_seeds, is_caller_pda}
use asseto_solana_programs.Common.Bitmask.{set_bits, clear_bits}
use asseto_solana_programs.Common.State.{
  AccountInfo, empty, loaded, unreadable, data_is_empty, Roles, roles_bytes_mask,
}
use asseto_solana_programs.Common.Guards.{AssetAccounts, require_authorized}
use asseto_solana_programs.Common.Roles.{role_admin}
use asseto_solana_programs.Common.Functionalities.{
  access_control_grant_roles, access_control_revoke_roles,
}

-- The mask that a bit mask loop leaves; an error aborts the instruction.
unfoldable pub mask_of : Bytes × Option ℕ → Result Bytes
mask_of (mask, none) = ok mask
mask_of (_, some _) = err (access_control AccessControlError.role_out_of_bounds)

-- `load_init`: a fresh account of zeros with its bump.
abbrev pub fresh_roles : ℕ → Roles
fresh_roles bump = record { bump = bump; mask = replicate roles_bytes_mask 0 }

-- `init_if_needed`, then `load_init` or else `load_mut`.
unfoldable pub load_or_init : ℕ → AccountInfo Roles → Result Roles
load_or_init bump empty = ok (fresh_roles bump)
load_or_init bump (loaded roles) = ok roles
load_or_init bump (unreadable e) = err e

-- `init`: the account must not be there.
unfoldable pub initialize : Runtime → Pubkey → Pubkey → ℕ → AccountInfo Roles → Result Roles
unfolding mask_of
initialize rt mint temp_mint_authority bump roles_pda = do
  require (data_is_empty roles_pda) (external constraint_failed)
  require (is_caller_pda rt temp_mint_authority (temp_mint_authority_seeds mint) deploy_program_id)
      (access_control AccessControlError.unauthorized)
  mask ← mask_of (set_bits (replicate roles_bytes_mask 0) (role_admin ∷ []))
  ok (record { bump = bump; mask = mask })

unfoldable pub grant_roles : AssetAccounts → ℕ → AccountInfo Roles → List ℕ → Result Roles
unfolding mask_of load_or_init
grant_roles a bump roles_pda roles = do
  roles_account ← load_or_init bump roles_pda
  require_authorized a role_admin access_control_grant_roles
  mask ← mask_of (set_bits roles_account.mask roles)
  ok (record roles_account { mask = mask })

unfoldable pub revoke_roles : AssetAccounts → Roles → List ℕ → Result Roles
unfolding mask_of
revoke_roles a roles_account roles = do
  require_authorized a role_admin access_control_revoke_roles
  mask ← mask_of (clear_bits roles_account.mask roles)
  ok (record roles_account { mask = mask })
