-- ===== src/Swap.antt =====
-- src/swap: the Lightning-to-USDB swaps, their order state machine and the Flashnet webhook.
pub mod Payload
pub mod Reconciler
pub mod Quote
pub mod Status
pub mod StateMachine
pub mod Units
pub mod Webhook
pub mod Gate
