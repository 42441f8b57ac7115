-- ===== src/Pruebas.antt =====
-- Concrete instances of the parameters, and the properties at concrete inputs.
pub mod Entorno
pub mod Orden
pub mod Claves
mod DeInstancia
mod DePlanificador
mod DeConsola
mod DeCoordinador
mod DeProtocolo
mod DeEsi
mod DeEnlace
