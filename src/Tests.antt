-- ===== src/Tests.antt =====
-- Runs of the code at concrete inputs, and each theorem applied where its hypotheses hold.
pub mod Parts
pub mod Handlers
pub mod Onboarding
pub mod Provisioning
pub mod Recovering
pub mod Installing
pub mod Loading
pub mod Listing
pub mod Wiring
