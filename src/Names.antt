-- ===== src/Names.antt =====
-- src/common/utils.ts and src/common/reserved-usernames.ts: which usernames there are.
pub mod Reserved
pub mod Normal
pub mod Ledger
