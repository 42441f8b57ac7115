-- ===== src/Coordinador.antt =====
-- The process Coordinador: Coordinador/src/Coordinador.c and Coordinador.h.
pub mod Estado
pub mod Letras
pub mod Instancias
pub mod Turno
pub mod Espacio
pub mod Claves
pub mod Asignar
pub mod Mensajes
pub mod Hilos
pub mod Operaciones
pub mod Status
pub mod Protocolo
