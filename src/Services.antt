-- ===== src/Services.antt =====
-- src/services: what the commands are made of.
pub mod Ir
