-- ===== src/Accounting.antt =====
-- The accounting module: modules/accounting.
pub mod Errors
pub mod FiscalYear
pub mod FiscalPeriod
pub mod Account
pub mod Store
pub mod Periods
pub mod Generation
pub mod Years
