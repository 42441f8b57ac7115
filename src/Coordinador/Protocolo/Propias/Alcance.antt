-- ===== src/Coordinador/Protocolo/Propias/Alcance.antt =====
-- The key of the message stays one that the ESI got, whatever thread takes its turn.
use tp_re_distinto_so.Base.{
  ℕ, ◌≡◌, sym, ◌∙◌, ap, subst, false, List, [], ◌∷◌, some, Text, ◌==◌, arith, Sorting, Ensures,
  Ensures-mono,
}
use tp_re_distinto_so.Coordinador.Estado.{Header, Estado, Red}
use tp_re_distinto_so.Coordinador.Claves.{Dictionary}
use tp_re_distinto_so.Coordinador.Hilos.{turno_instance, turno_scheduler}
use tp_re_distinto_so.Coordinador.Operaciones.{
  Fase, desocupado, espera_scheduler, espera_instance, abortado, Punto,
}
use tp_re_distinto_so.Coordinador.Protocolo.{
  Paso, llega, pregunta, trabaja, sigue, Alcanza, aqui, luego,
}
use tp_re_distinto_so.Coordinador.Protocolo.Turnos.{
  es_pedido, turno_scheduler-Respondida, turno_scheduler-abort,
}
use tp_re_distinto_so.Coordinador.Protocolo.Turnos.Trabajo.{
  turno_instance-Trabajada, turno_instance-start,
}
use tp_re_distinto_so.Coordinador.Protocolo.Fichas.{Fichas}
use tp_re_distinto_so.Coordinador.Protocolo.Fichas.Alcance.{Alcanza-Fichas}
use tp_re_distinto_so.Coordinador.Protocolo.Propias.Historia.{
  poseida, Permitida, Propia-Permitida, Alcanza-poseida,
}
use tp_re_distinto_so.Coordinador.Protocolo.Propias.{
  Autoriza, Propia, EnPunto, mensaje-Propia, turno_esi-Propia,
}

module _ (dic : Dictionary) where
  -- The other threads leave the key alone while the thread of the ESI waits.
  pregunta-Propia :
      (red : Red) (fuel : ℕ) (f : Fase) (socket : ℕ) (r : Header) (ks : List Text) (s : Estado)
      → (r.id == 11) ≡ false
      → Fichas f s
      → Propia dic f ks s.key
      → Ensures (λ t. Propia dic f ks t.key) (turno_scheduler red fuel socket (some r) s)
  unfolding Fichas Propia
  pregunta-Propia red fuel desocupado socket r ks s e h k = record { value = λ a b. tt }
  pregunta-Propia red fuel abortado socket r ks s e h k = record { value = λ a b. tt }
  pregunta-Propia red fuel (espera_scheduler op) socket r ks s e h k =
      Ensures-mono _ (λ t w. subst (Autoriza dic op ks) (sym w.1.5) k)
        (turno_scheduler-Respondida red fuel socket r s (ap es_pedido h.1 ∙ h.0) e)
  pregunta-Propia red fuel (espera_instance op) socket r ks s e h k =
      Ensures-mono _ (λ t w. absurd (omega (arith, w.0, h.2)))
        (turno_scheduler-abort red fuel socket (some r) s (λ n. absurd (omega (arith, n, h.2))))

  trabaja-Propia :
      (red : Red) (fuel : ℕ) (f : Fase) (i socket : ℕ) (previo r : Header) (carga : List ℕ)
      (ks : List Text) (s : Estado)
      → (r.id == 11) ≡ false
      → Fichas f s
      → Propia dic f ks s.key
      → Ensures
          (λ t. Propia dic f ks t.key)
          (turno_instance red fuel i socket previo (r ∷ []) carga s)
  unfolding Fichas Propia
  trabaja-Propia red fuel desocupado i socket previo r carga ks s e h k = record {
    value = λ a b. tt;
  }
  trabaja-Propia red fuel abortado i socket previo r carga ks s e h k = record { value = λ a b. tt }
  trabaja-Propia red fuel (espera_scheduler op) i socket previo r carga ks s e h k =
      Ensures-mono _ (λ t w. absurd (omega (arith, w, h.4)))
        (turno_instance-start red fuel i socket previo (r ∷ []) carga s)
  trabaja-Propia red fuel (espera_instance op) i socket previo r carga ks s e h k =
      Ensures-mono _ (λ t w. subst (Autoriza dic op ks) (sym w.5) k)
        (turno_instance-Trabajada red fuel i socket previo r carga s (ap es_pedido h.1 ∙ h.0) e)

  Paso-Propia :
      (sorting : Sorting) (red : Red) (fuel : ℕ) (p q : Punto)
      → Fichas p.hilo.fase p.estado
      → EnPunto dic p
      → Paso sorting red dic fuel p q
      → EnPunto dic q
  Paso-Propia sorting red fuel p q h k (llega m carga l e) =
      subst (EnPunto dic) (sym e) (mensaje-Propia dic m carga p.hilo p.estado l)
  Paso-Propia sorting red fuel p q h k (pregunta socket r n e d) =
      subst (λ t. Propia dic t.fase t.blocked_keys q.estado.key) (sym e)
        ((pregunta-Propia red fuel p.hilo.fase socket r p.hilo.blocked_keys p.estado n h k).value
          q.estado d)
  Paso-Propia sorting red fuel p q h k (trabaja i socket previo r carga n e d) =
      subst (λ t. Propia dic t.fase t.blocked_keys q.estado.key) (sym e)
        ((trabaja-Propia red fuel p.hilo.fase i socket previo r carga p.hilo.blocked_keys p.estado n
            h k).value
          q.estado d)
  Paso-Propia sorting red fuel p q h k (sigue d) = turno_esi-Propia dic red sorting fuel p q h k d

Alcanza-EnPunto :
    (sorting : Sorting) (red : Red) (dic : Dictionary) (fuel : ℕ) (p q : Punto)
    → Fichas p.hilo.fase p.estado
    → Propia dic p.hilo.fase p.hilo.blocked_keys p.estado.key
    → Alcanza sorting red dic fuel p q
    → Propia dic q.hilo.fase q.hilo.blocked_keys q.estado.key
Alcanza-EnPunto sorting red dic fuel p _ h k aqui = k
Alcanza-EnPunto sorting red dic fuel p q h k (luego {q = r} a b) =
    Paso-Propia dic sorting red fuel r q (Alcanza-Fichas sorting red dic fuel p r h a)
      (Alcanza-EnPunto sorting red dic fuel p r h k a) b

-- From a point where the semaphores are as the stage of the ESI says and a SET or STORE that waits
-- is of a key among those of the ESI, whatever turns follow, messages of compaction and STATUS aside:
-- the dictionary of the ESI holds just the keys that it had at the start or got by a GET since then
-- and did not give back by a STORE, and the scheduler and the instances work for it on a SET or a
-- STORE of no other key.
pub Alcanza-Propia :
    (sorting : Sorting) (red : Red) (dic : Dictionary) (fuel : ℕ) (p q : Punto)
    → Fichas p.hilo.fase p.estado
    → Propia dic p.hilo.fase p.hilo.blocked_keys p.estado.key
    → (a : Alcanza sorting red dic fuel p q)
    → ((j : Text) → dic.has_key q.hilo.blocked_keys j ≡ poseida sorting red dic fuel a j)
      × Permitida q.hilo.fase (poseida sorting red dic fuel a q.estado.key)
Alcanza-Propia sorting red dic fuel p q h k a =
    let igual = Alcanza-poseida sorting red dic fuel p q a in
    (
      igual,
      Propia-Permitida dic q.hilo.fase q.hilo.blocked_keys q.estado.key _ (igual q.estado.key)
          (Alcanza-EnPunto sorting red dic fuel p q h k a),
    )
