-- ===== src/Account.antt =====
-- src/username, src/auth/auth.service.ts and src/currency-preference: what belongs to an account.
pub mod Terms
pub mod Username
pub mod Registration
pub mod Preference
