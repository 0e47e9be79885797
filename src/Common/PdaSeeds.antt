-- ===== src/Common/PdaSeeds.antt =====
-- programs/common/src/pda_seeds.rs and the pure part of pda_utils.rs: the seeds of derived
-- addresses. `find_program_address` is the runtime's, and so a field of `Runtime`.
use Prim.Native.Char.{code}
use Prim.Native.String.{String}
use asseto_solana_programs.Prelude.{ℕ, Bool, List, [], ◌∷◌, Bytes, le_bytes, ◌==◌}
use asseto_solana_programs.Common.ProgramIds.{Pubkey}

pub record Runtime : Type 0 where
  pub find_program_address : List Bytes → Pubkey → Pubkey × ℕ

-- The bytes of an ASCII literal.
abbrev pub codes : String → Bytes
codes String.[] = []
codes (String.◌∷◌ c s) = code c ∷ codes s

-- `Pubkey::as_ref`
unfoldable pub as_ref : Pubkey → Bytes
as_ref key = le_bytes 32 key

unfoldable pub temp_mint_authority_seeds : Pubkey → List Bytes
temp_mint_authority_seeds mint = codes "temp_mint_authority" ∷ as_ref mint ∷ []

unfoldable pub freeze_state_seeds : Pubkey → Pubkey → List Bytes
freeze_state_seeds mint account = codes "freeze_state" ∷ as_ref mint ∷ as_ref account ∷ []

unfoldable pub permanent_delegate_seeds : Pubkey → List Bytes
permanent_delegate_seeds mint = codes "permanent_delegate" ∷ as_ref mint ∷ []

unfoldable pub control_list_seeds : Pubkey → Pubkey → List Bytes
control_list_seeds mint account = codes "control_list" ∷ as_ref mint ∷ as_ref account ∷ []

unfoldable pub coupon_authority_seeds : Pubkey → List Bytes
coupon_authority_seeds mint = codes "coupon_authority" ∷ as_ref mint ∷ []

unfoldable pub hold_position_seeds : Pubkey → Pubkey → List Bytes
hold_position_seeds mint token_account =
    codes "hold_position" ∷ as_ref mint ∷ as_ref token_account ∷ []

unfoldable pub hold_authority_seeds : Pubkey → List Bytes
hold_authority_seeds mint = codes "hold_authority" ∷ as_ref mint ∷ []

unfoldable pub is_caller_pda : Runtime → Pubkey → List Bytes → Pubkey → Bool
is_caller_pda rt caller program_seeds program_id =
    let (pda, _) = rt.find_program_address program_seeds program_id in pda == caller

unfoldable pub permissioned_burn_seeds : Pubkey → List Bytes
permissioned_burn_seeds mint = codes "permissioned_burn" ∷ as_ref mint ∷ []

unfoldable pub mint_authority_seeds : Pubkey → List Bytes
mint_authority_seeds mint = codes "mint_authority" ∷ as_ref mint ∷ []

unfoldable pub treasury_authority_seeds : Pubkey → List Bytes
treasury_authority_seeds mint = codes "treasury_authority" ∷ as_ref mint ∷ []

unfoldable pub pausable_authority_seeds : Pubkey → List Bytes
pausable_authority_seeds mint = codes "pausable_authority" ∷ as_ref mint ∷ []

unfoldable pub asset_configuration_seeds : Pubkey → List Bytes
asset_configuration_seeds mint = codes "asset_configuration" ∷ as_ref mint ∷ []

unfoldable pub asset_class_version_seeds : ℕ → ℕ → List Bytes
asset_class_version_seeds config_id version_id =
    codes "asset_class_version" ∷ le_bytes 8 config_id ∷ le_bytes 8 version_id ∷ []

unfoldable pub deactivate_seeds : Pubkey → List Bytes
deactivate_seeds mint = codes "deactivate" ∷ as_ref mint ∷ []

unfoldable pub transfer_control_mode_seeds : Pubkey → List Bytes
transfer_control_mode_seeds mint = codes "transfer_control_mode" ∷ as_ref mint ∷ []

unfoldable pub metadata_update_authority_seeds : Pubkey → List Bytes
metadata_update_authority_seeds mint = codes "metadata_update_authority" ∷ as_ref mint ∷ []

unfoldable pub transfer_hook_authority_seeds : Pubkey → List Bytes
transfer_hook_authority_seeds mint = codes "transfer_hook_authority" ∷ as_ref mint ∷ []

unfoldable pub extra_account_metas_seeds : Pubkey → List Bytes
extra_account_metas_seeds mint = codes "extra-account-metas" ∷ as_ref mint ∷ []

unfoldable pub document_seeds : Pubkey → Bytes → List Bytes
document_seeds mint name = codes "document" ∷ as_ref mint ∷ name ∷ []
