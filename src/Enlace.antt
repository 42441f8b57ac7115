-- ===== src/Enlace.antt =====
-- What one process sends is what the other one reads.
pub mod Consultas
pub mod Envios
pub mod Pedidos
pub mod Valores
