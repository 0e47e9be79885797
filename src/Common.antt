-- ===== src/Common.antt =====
-- The shared crate, programs/common/src: addresses, account layouts, bit masks, guards and Merkle
-- proofs.
pub mod ProgramIds
pub mod Functionalities
pub mod Roles
pub mod PdaSeeds
pub mod Bitmask
pub mod State
pub mod Guards
pub mod Authorized
pub mod HookAccounts
pub mod Merkle
pub mod Token
pub mod System
pub mod PdaUtils
pub mod Examples
pub mod SystemExample
