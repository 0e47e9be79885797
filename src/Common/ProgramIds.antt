-- ===== src/Common/ProgramIds.antt =====
-- programs/common/src/program_ids.rs: the address of each program. A `Pubkey` is its 32 bytes, read
-- as a little-endian number; the base-58 text is decoded.
use asseto_solana_programs.Prelude.{ℕ}

abbrev pub Pubkey : Type 0
Pubkey = ℕ

-- HCe5Um7ThFBzDSyn256EPQvyr6jy6E66ydzZ5hMta3Tq
abbrev pub deploy_program_id : Pubkey
deploy_program_id = 0x34f87d62a01e736e302a526c283ff0a171941ff31ec88a1f36d0f2ae954db6f0

-- H2iRjVVKsKQMAnJKqiTfW2LGvT1G9tDqQ81DzRjxfX7V
abbrev pub deactivate_program_id : Pubkey
deactivate_program_id = 0xd0145a95332f15e9831ae005547ffc935c3535c3bb452d515f8beda3a2692bee

-- BgVv7zYbf3L4ECwaeNoNqD6unKWvQtgTwRJ2Dma7iSHQ
abbrev pub mint_program_id : Pubkey
mint_program_id = 0xa3b0aabf4b6a7d2d8f5c2ececeb29c7f8682161fec1bca6f3090562e5237b39e

-- BHDyg8PeUyVBpmkcjYLdnt3VCmYf4wp8Xeu6TXREiLKp
abbrev pub operations_program_id : Pubkey
operations_program_id = 0xa7cca0a81405d7d924e1f0aabc1b8e45011a4402d494573a76e1ad75e4d5bc98

-- 8L1kqDvAYC9dQXNNNnZbABtRbHGjzoxSgAPzbQZmwmSd
abbrev pub freeze_program_id : Pubkey
freeze_program_id = 0xeeb46f13b7ef38f0a825bf93bc76191006c7548de1e076c2a0dec3c8c6b2e06c

-- iShebeGRBZYSBMQYGAg8DbLnbaW2eDvX1Zt8EG9G1ZV
abbrev pub metadata_update_program_id : Pubkey
metadata_update_program_id = 0x546a3d47cbfa054a69959d1e4d0b4b0406f5fdbcbf751ff5dfe717b489df9d0a

-- 5j3F89fmVVusjwy9z3Rv5wLaVj4ovhwctQ7TRBsxNghq
abbrev pub pause_program_id : Pubkey
pause_program_id = 0x340bad48ea48f36975e3ac2c9ca152edc424bd9c28d8b1fb882faf47adad3346

-- 3h92PdZJB7TuCzp6iPDtrJm2k8V7fn5ETYNwCYiYy9Eo
abbrev pub transfer_control_program_id : Pubkey
transfer_control_program_id = 0xd019bdf6802beabea47192e814fe39d99e85cf560ebc96cb7f4d0366cfadff27

-- Fa5VLqopKp6cokXJreYeNNmUG8F9AaE4CUBnGQvtdq7Q
abbrev pub transfer_program_id : Pubkey
transfer_program_id = 0x63cc9cd386a07fbec33aa9cf3bbf2a74bf15a198be4f767dd151e800e8db7cd8

-- 2qjsucJfrjP93FCwnYjc9EjYzYS8u31eWHhQo1jR9pcg
abbrev pub transfer_hook_program_id : Pubkey
transfer_hook_program_id = 0xb10ab2e34a4ccd194627efaa003881943c03ff58d4973d7bd35094ba380c581b

-- hgUtrpstViwxutrkoVXwQh3GQC18wHAmuAvYFTNiV2M
abbrev pub snapshot_program_id : Pubkey
snapshot_program_id = 0x36417269605c4243e109440a71a8cdf0e01c456dac1e3d4e2e68bb03a4df6b0a

-- 8opYXiWzWBrUEr5vtcvaX1ybzYaMKrndxkW1U9Patk46
abbrev pub bond_program_id : Pubkey
bond_program_id = 0x7bafa07fe52d2fd8c279c951033c99cfab1dc2f350ddf42ea7331558f480074

-- CGQMgamBMtJ97CCMwVD9v5vAYVzFsXLy8beN8Ej6t3FK
abbrev pub coupon_program_id : Pubkey
coupon_program_id = 0xce524c49c99ec282a7de989d613fb9d55b08560dd0f12e026ad7b4777ead62a7

-- G71RRNtr2PLZ9Tbmp9CKnxghf3aMoasUwLGPb2u7BytA
abbrev pub treasury_program_id : Pubkey
treasury_program_id = 0x273744a5d1dcceaed5614edcf693d00cf7b7b3323a32be157c57144ccb4369e0

-- FEY9E77nH7R1gLGNxkhYKchJpB6MgpMrWMhkNXrNhzR5
abbrev pub factory_program_id : Pubkey
factory_program_id = 0xa839cc4b150e4552163b01b4f95ab15c758087eb2631ce7a7b003d9431617bd3

-- GpyjQqBWux3JYqxKCXFrDbWZmhFWBJWVaVivkBW2DL2w
abbrev pub access_control_program_id : Pubkey
access_control_program_id = 0x2cad7a57e52a812e268dea839c6f382daa809bb53fe016c9e96402ba84bf29eb

-- 64THHYmfoHeWxbZQYq8yRsQJYydfd7yPa6MzNgebiJLm
abbrev pub cap_program_id : Pubkey
cap_program_id = 0xc61db4b84251241095c69fe20aed5a2c5746407b92342e41451b6ab390e42c4b

-- DzYjHw2JUBT8RdNqT8P5soRxJhmL6obibRUs5sMJ2Khi
abbrev pub document_program_id : Pubkey
document_program_id = 0xf99074cba73a43cee234abfc1964ec25c55eb1f5777acd0f763770c8bb390ac1

-- J8iq5Qz8tXLswZBbUFHuJukf3jpwEXLGVpvFoPZb2qY3
abbrev pub hold_program_id : Pubkey
hold_program_id = 0x9070cbf4b71cb1831c91ca5cdab5787d2f460181fdd2ab049d90eb811c0a91fe

-- DJSxxL9WJkag9gCifqQs5EBD4uow9beP8CyDaZDj2rLL
abbrev pub nominal_value_program_id : Pubkey
nominal_value_program_id = 0xd8d69e1bc99011a4b793b52c76f03d6646b89b22ba87b042f88b7c1ab79c4b6
