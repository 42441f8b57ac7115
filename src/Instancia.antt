-- ===== src/Instancia.antt =====
-- Instancia/src/Instancia.c and Instancia.h: the process that stores values. Its state and its
-- operations stand in the children, and what they are proved to do in the children of those.
pub mod Estado
pub mod Tabla
pub mod Memoria
pub mod Claves
pub mod Compactar
pub mod Circ
pub mod Lru
pub mod Procesar
