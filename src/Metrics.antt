-- ===== src/Metrics.antt =====
-- src/metrics/: the splitting of an export into requests of a bounded size.
pub mod Split
pub mod Health
pub mod HealthLaws
pub mod Labels
pub mod LabelLaws
pub mod Rows
pub mod Shells
pub mod Piece
pub mod SplitLaws
mod Tests
