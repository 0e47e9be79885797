-- ===== src/Common/State.antt =====
-- The layouts of programs/common/src/state, and accounts as the programs see them.
use asseto_solana_programs.Prelude.{ℕ, ◌+◌, Bool, true, false, [], ◌∷◌, length, Bytes}
use asseto_solana_programs.Errors.{Error, external, account_not_initialized, Result, ok, err}
use asseto_solana_programs.Common.ProgramIds.{Pubkey}

-- An account that a program reads itself: it holds no data, Anchor loads it as a `T`, or the loading
-- fails (another owner, another discriminator, a short buffer).
pub data AccountInfo (T : Type 0) : Type 0 where
  empty : AccountInfo T
  loaded : T → AccountInfo T
  unreadable : Error → AccountInfo T

abbrev pub data_is_empty : {T : Type 0} → AccountInfo T → Bool
data_is_empty empty = true
data_is_empty (loaded _) = false
data_is_empty (unreadable _) = false

-- `Account::<T>::try_from`
abbrev pub try_from : {T : Type 0} → AccountInfo T → Result T
try_from empty = err (external account_not_initialized)
try_from (loaded t) = ok t
try_from (unreadable e) = err e

-- The state of a Token-2022 mint that unpacks; `paused` is what `get_extension` finds of the
-- pausable extension.
pub record MintState : Type 0 where
  pub supply : ℕ
  pub decimals : ℕ
  pub paused : Result Bool

-- The state of a Token-2022 token account; `transferring` is what `get_extension` finds of the
-- transfer-hook extension.
pub record TokenAccount : Type 0 where
  pub mint : Pubkey
  pub owner : Pubkey
  pub amount : ℕ
  pub transferring : Result Bool

abbrev pub functionalities_bits_mask : ℕ
functionalities_bits_mask = 8192

abbrev pub functionalities_bytes_mask : ℕ
functionalities_bytes_mask = 1024

abbrev pub asset_class_version_state_draft : ℕ
asset_class_version_state_draft = 0

abbrev pub asset_class_version_state_finalized : ℕ
asset_class_version_state_finalized = 1

pub record AssetClassVersion : Type 0 where
  pub config_id : ℕ
  pub version : ℕ
  pub state : ℕ
  pub bump : ℕ
  pub mask : Bytes

pub record AssetConfiguration : Type 0 where
  pub asset_class_config_id : ℕ
  pub asset_class_version_id : ℕ
  pub bump : ℕ

-- The account's bytes: the discriminator, and the fields in their order.
abbrev pub asset_configuration_discriminator : Bytes
asset_configuration_discriminator = 15 ∷ 79 ∷ 132 ∷ 40 ∷ 8 ∷ 129 ∷ 114 ∷ 149 ∷ []

abbrev pub asset_class_config_id_offset : ℕ
asset_class_config_id_offset = length asset_configuration_discriminator

abbrev pub asset_class_version_id_offset : ℕ
asset_class_version_id_offset = asset_class_config_id_offset + 8

pub record HoldPosition : Type 0 where
  pub mint : Pubkey
  pub token_account : Pubkey
  pub held_amount : ℕ
  pub hold_count : ℕ
  pub bump : ℕ

abbrev pub roles_bytes_mask : ℕ
roles_bytes_mask = 1024

pub record Roles : Type 0 where
  pub bump : ℕ
  pub mask : Bytes
