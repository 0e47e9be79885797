-- ===== src/Common/Roles.antt =====
-- programs/common/src/roles.rs: the bit of each role in the mask of a holder.
use asseto_solana_programs.Prelude.{ℕ}

abbrev pub role_admin : ℕ
role_admin = 0

abbrev pub role_controller : ℕ
role_controller = 1

abbrev pub role_control_list : ℕ
role_control_list = 2

abbrev pub role_corporate_action : ℕ
role_corporate_action = 3

abbrev pub role_issuer : ℕ
role_issuer = 4

abbrev pub role_treasurer : ℕ
role_treasurer = 5

abbrev pub role_pauser : ℕ
role_pauser = 6

abbrev pub role_freeze_manager : ℕ
role_freeze_manager = 7

abbrev pub role_deactivate : ℕ
role_deactivate = 8

abbrev pub role_custom_data_manager : ℕ
role_custom_data_manager = 9

abbrev pub role_cap : ℕ
role_cap = 10

abbrev pub role_document_manager : ℕ
role_document_manager = 11

abbrev pub role_nominal_value : ℕ
role_nominal_value = 12
