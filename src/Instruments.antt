-- ===== src/Instruments.antt =====
-- Instrument selection, milestone M5 (backend/app/instruments).
pub mod Models
