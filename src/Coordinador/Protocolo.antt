-- ===== src/Coordinador/Protocolo.antt =====
-- The threads of the coordinator that serve an ESI, as a step relation: host_esi, host_scheduler and
-- host_instance take turns, in any order that their semaphores allow.
pub mod Ajena
pub mod Fichas
pub mod Progreso
pub mod Propias
pub mod Turnos
use tp_re_distinto_so.Base.{
  ℕ, ◌≡◌, Bool, true, false, List, [], ◌∷◌, some, Outcome, done, ◌==◌, Sorting,
}
use tp_re_distinto_so.Coordinador.Estado.{Operation, Header, Estado, Red}
use tp_re_distinto_so.Coordinador.Claves.{Dictionary}
use tp_re_distinto_so.Coordinador.Hilos.{turno_instance, turno_scheduler}
use tp_re_distinto_so.Coordinador.Operaciones.{
  Hilo, Punto, desocupado, process_message_header_esi, turno_esi,
}

module _ (sorting : Sorting) (red : Red) (dic : Dictionary) (fuel : ℕ) where
  -- A turn of one of the threads: a message of the ESI arrives at its thread, the thread of the
  -- scheduler asks and is answered, that of an instance works and is answered, or that of the ESI goes
  -- on behind its wait. No answer asks for a compaction (id 11), and no STATUS comes in between.
  pub data Paso (p q : Punto) : Type 0 where
    llega :
        (h : Header) (carga : List ℕ)
        → p.hilo.fase ≡ desocupado
        → q ≡ process_message_header_esi dic h carga p.hilo p.estado
        → Paso p q
    pregunta :
        (socket : ℕ) (r : Header)
        → (r.id == 11) ≡ false
        → q.hilo ≡ p.hilo
        → turno_scheduler red fuel socket (some r) p.estado ≡ done q.estado
        → Paso p q
    trabaja :
        (i socket : ℕ) (previo r : Header) (carga : List ℕ)
        → (r.id == 11) ≡ false
        → q.hilo ≡ p.hilo
        → turno_instance red fuel i socket previo (r ∷ []) carga p.estado ≡ done q.estado
        → Paso p q
    sigue : turno_esi dic red sorting fuel p.hilo p.estado ≡ done q → Paso p q

  -- The points that turns lead to.
  pub data Alcanza (p : Punto) : Punto → Type 0 where
    aqui : Alcanza p p
    luego : {q r : Punto} → Alcanza p q → Paso q r → Alcanza p r
