-- ===== src/Common/Functionalities.antt =====
-- programs/common/src/functionalities.rs: the bit of each instruction in the mask of a version.
use asseto_solana_programs.Prelude.{ℕ}

abbrev pub bond_update_bond_terms : ℕ
bond_update_bond_terms = 0

abbrev pub coupon_create_coupon : ℕ
coupon_create_coupon = 1

abbrev pub coupon_set_coupon_rate : ℕ
coupon_set_coupon_rate = 2

abbrev pub deactivate_deactivate : ℕ
deactivate_deactivate = 3

abbrev pub freeze_freeze_account : ℕ
freeze_freeze_account = 4

abbrev pub freeze_unfreeze_account : ℕ
freeze_unfreeze_account = 5

abbrev pub freeze_partially_freeze_account : ℕ
freeze_partially_freeze_account = 6

abbrev pub freeze_remove_partial_freeze : ℕ
freeze_remove_partial_freeze = 7

abbrev pub metadata_update_update_metadata_field : ℕ
metadata_update_update_metadata_field = 8

abbrev pub metadata_update_remove_metadata_field : ℕ
metadata_update_remove_metadata_field = 9

abbrev pub mint_mint : ℕ
mint_mint = 10

abbrev pub operations_burn : ℕ
operations_burn = 11

abbrev pub pause_pause : ℕ
pause_pause = 12

abbrev pub pause_unpause : ℕ
pause_unpause = 13

abbrev pub transfer_control_initialize : ℕ
transfer_control_initialize = 14

abbrev pub transfer_control_add_to_control_list : ℕ
transfer_control_add_to_control_list = 15

abbrev pub transfer_control_remove_from_control_list : ℕ
transfer_control_remove_from_control_list = 16

abbrev pub transfer_hook_execute : ℕ
transfer_hook_execute = 17

abbrev pub treasury_set_payment_token : ℕ
treasury_set_payment_token = 18

abbrev pub treasury_pay_coupon : ℕ
treasury_pay_coupon = 19

abbrev pub access_control_grant_roles : ℕ
access_control_grant_roles = 20

abbrev pub access_control_revoke_roles : ℕ
access_control_revoke_roles = 21

abbrev pub cap_max_supply : ℕ
cap_max_supply = 22

abbrev pub operations_controller_transfer : ℕ
operations_controller_transfer = 23

abbrev pub document_set_document : ℕ
document_set_document = 24

abbrev pub document_remove_document : ℕ
document_remove_document = 25

abbrev pub hold_create_hold : ℕ
hold_create_hold = 26

abbrev pub nominal_value_initialize : ℕ
nominal_value_initialize = 27

abbrev pub nominal_value_publish : ℕ
nominal_value_publish = 28

abbrev pub nominal_value_republish : ℕ
nominal_value_republish = 29
