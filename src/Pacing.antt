-- ===== src/Pacing.antt =====
-- Pacing of historical data requests: src/tws_meta.cpp, the classes PacingControl and PacingGod.
pub mod Control
pub mod God
mod Tests
