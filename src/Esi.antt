-- ===== src/Esi.antt =====
-- The process ESI, which runs a script of operations: ESI.c and ESI.h.
pub mod Estado
pub mod Turno
