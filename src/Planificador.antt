-- ===== src/Planificador.antt =====
-- Planificador/src/Planificador.c, Planificador.h, Consola.c and Consola.h: the scheduler. Its state
-- and its operations stand in the children, and what they are proved to do in the children of those.
pub mod Estado
pub mod Estimacion
pub mod Claves
pub mod Desbloqueo
pub mod Ciclo
pub mod Consola
