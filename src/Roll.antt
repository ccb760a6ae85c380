-- ===== src/Roll.antt =====
-- v2/s4_0/contract_roll.py: the business-day calendar, the CL contract, the roll window and the
-- choice of the front and next contracts.
pub mod Calendar
pub mod Dates
pub mod Contract
pub mod Status
pub mod Select
mod Tests
