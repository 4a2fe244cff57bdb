-- ===== src/Spl.antt =====
-- The stream processing language: its types and values, and its runtime as parameters.
pub mod Types
pub mod Runtime
