-- ===== src/Time.antt =====
-- The shared kernel's dates: shared/primitives/calendar.ts and shared/time.
pub mod Calendar
pub mod Jalali
pub mod BusinessDate
mod Tests
use main_acounting_system.Prelude.{ℕ}

-- `DateTime`, an instant: milliseconds since the epoch.
abbrev pub DateTime : Type 0
DateTime = ℕ
