-- ===== src/Lib.antt =====
-- The programs of asseto-solana-programs: tokenised assets on Solana, as a set of Anchor programs
-- around a Token-2022 mint.
--
-- An asset is a mint with a permanent delegate (programs/operations), a transfer hook
-- (programs/transfer-hook) and a mint authority (programs/mint). Its class and version, kept by
-- programs/factory, fix by a bit mask which functionalities it supports; programs/access-control
-- keeps, by another mask, which roles an account has. Every instruction opens with the checks of
-- programs/common. A balance can be locked in two ways that add up: frozen (programs/freeze) and
-- held (programs/hold). A holder's transfer runs the hook, which checks both locks and the control
-- lists of programs/transfer-control; a transfer or burn by the permanent delegate does not, so
-- programs/operations checks the holds itself. programs/cap bounds the supply that programs/mint
-- issues. programs/deploy makes the mint, its authorities, its hook's account list and its first
-- admin; programs/pause and programs/deactivate stop it for a while or for good. programs/bond
-- keeps the terms of a bond; programs/coupon issues its coupons, each with a snapshot of the
-- balances (programs/snapshot), on which programs/treasury pays. programs/nominal-value,
-- programs/document and programs/metadata-update keep what is published about an asset.
-- programs/transfer sends to several accounts at once, with the accounts that the hook needs.
--
-- Files, each for the source that it names at its top:
--   Prelude         Booleans, lists, machine words, maps and signed integers over the native
--                   numbers
--   Errors          the error codes of all programs, and `Result` with the chain of `?`
--   Common          programs/common: masks (Bitmask), balance proofs (Merkle), checks (Guards,
--                   Authorized), layouts (State), addresses (PdaSeeds), constants, managed
--                   accounts (PdaUtils), forwarded accounts (HookAccounts); Token-2022 and the System program as
--                   interfaces (Token, System)
--   Freeze          programs/freeze: queries, Instructions, Batch; Laws, BatchLaws, and BatchSpec
--                   with BatchEntries and BatchRefinement, the batches against what they mean
--   TransferControl programs/transfer-control
--   Operations      programs/operations
--   Hold            programs/hold: Instructions; Creation, Outcome and Execution say what each
--                   does; Lien is the transition system of one account, with Sums, Records,
--                   Invariant, Version and Resolution
--   TransferHook    programs/transfer-hook: execute; Metas is its account list, Metas.Resolution
--                   what the list leads to
--   Cap, Mint       programs/cap and programs/mint; Mint.Supply joins them
--   AccessControl   programs/access-control
--   Factory         programs/factory: Instructions; Versions is the transition system of one class,
--                   Lifecycle what its histories keep, Office and Management the
--                   office of the manager, Signers who may change it
--   Bond, Snapshot  programs/bond and programs/snapshot
--   Coupon          programs/coupon: History is the transition system of a mint's coupons and
--                   snapshots, with Created, Invariant, Kept and Decision
--   Treasury        programs/treasury: Payout is the arithmetic of a coupon, Guard what its
--                   instructions require, History the transition system of a bond's terms,
--                   coupons, snapshots and payments (Sound), Lock the payment token after a
--                   payment
--   NominalValue    programs/nominal-value: History is its publications
--   Pause           programs/pause and programs/deactivate: Lifecycle is their transition system
--   Document        programs/document: Effect is one instruction, Register a sequence of them
--   MetadataUpdate  programs/metadata-update: Size and Funding
--   Transfer        programs/transfer: Forwarding is what a leg hands to the hook
--   Deploy          programs/deploy: Token is the part of Token-2022 that sets up a mint, Setup
--                   what it leaves, Outcome the whole deployment
--
-- Each handler is one function of the same name from its arguments and the accounts that it reads
-- to a `Result` of the accounts that it writes. A `require!` is a `require` in the same place, `?`
-- is the bind of `Result`; an error leaves no account changed, as a transaction that fails does
-- not commit. An account that a program probes itself is an `AccountInfo`: empty, loaded, or
-- unreadable with an error. An account that Anchor loads is the record. A `seeds` constraint says
-- that the account is the one at those seeds, so it is the argument; `init` and `init_if_needed`
-- are written out, `close` makes the account empty. Where a batch finds an address by itself, it
-- is derived and compared as in the source. In a batch of the freeze program a closed account
-- stays unreadable until the transaction ends, as its data are zeros.
--
-- A public key is the number that its 32 bytes stand for, least significant first. A `u64` is a
-- natural number: sums that the source checks are checked against 2 ^ 64 (products of the treasury
-- against 2 ^ 128), and `saturating_sub` stops at 0. An `i64` is an integer; a difference of two
-- is checked to be one again. The clock is the argument `now`. Nothing recurs but on a list, so
-- there is no fuel.
--
-- Parameters: `Runtime.find_program_address` of the Solana runtime; `TokenProgram`, the accounts
-- and instructions of Token-2022 over a ledger of its own, with TokenLaws (a transfer or burn
-- takes no more than its amount) and MintLaws (`mint_to` adds its amount to the supply);
-- keccak-256, with the length of its digests. Each has a concrete instance in Common.Examples or a
-- test module.
--
-- The System program and the runtime are `SystemProgram` (lamports, sizes, rent) with SystemLaws,
-- where the accounts' lamports matter: documents, metadata and deployment. Elsewhere rent is left
-- out. PauseLaws says that the pausable extension does what its two instructions are for,
-- MintSetupLaws which fields of a mint each instruction writes; `Resolver` is the client library
-- that finds the accounts of a list, entry by entry. `str::to_lowercase` is an argument, with
-- nothing assumed of it. Strings are their UTF-8 bytes.
--
-- Not modelled: events; borrows of account data; the padding and discriminators of accounts, but
-- for the asset configuration, into which the hook's list points; what Anchor's `init` pays for
-- the accounts that it makes; the entry points in each lib.rs, which only pass their arguments on;
-- tests, scripts and client code.
pub mod Prelude
pub mod Errors
pub mod Common
pub mod Freeze
pub mod TransferControl
pub mod Operations
pub mod Hold
pub mod TransferHook
pub mod Cap
pub mod Mint
pub mod AccessControl
pub mod Factory
pub mod Bond
pub mod Snapshot
pub mod Coupon
pub mod Treasury
pub mod Transfer
pub mod Pause
pub mod Document
pub mod MetadataUpdate
pub mod Deploy
pub mod NominalValue
