-- ===== src/Coordinador/Protocolo/Fichas/Alcance.antt =====
-- Every turn of a thread keeps the semaphores as the stage of the ESI says.
use tp_re_distinto_so.Base.{
  ℕ, ◌≡◌, sym, ◌∙◌, ap, subst, false, List, [], ◌∷◌, some, ◌==◌, arith, Sorting, Ensures,
  Ensures-mono,
}
use tp_re_distinto_so.Coordinador.Estado.{Header, Estado, Red}
use tp_re_distinto_so.Coordinador.Claves.{Dictionary}
use tp_re_distinto_so.Coordinador.Hilos.{turno_instance, turno_scheduler}
use tp_re_distinto_so.Coordinador.Operaciones.{
  Fase, desocupado, espera_scheduler, espera_instance, abortado, Punto,
}
use tp_re_distinto_so.Coordinador.Protocolo.{
  Paso, llega, pregunta, trabaja, sigue, Alcanza, aqui, luego,
}
use tp_re_distinto_so.Coordinador.Protocolo.Turnos.{
  es_pedido, turno_scheduler-Respondida, turno_scheduler-abort,
}
use tp_re_distinto_so.Coordinador.Protocolo.Turnos.Trabajo.{
  turno_instance-Trabajada, turno_instance-start,
}
use tp_re_distinto_so.Coordinador.Protocolo.Fichas.{
  Fichas, EnPunto, mensaje-Fichas, turno_esi-Fichas,
}

-- Another thread goes on while that of the ESI stands where it is.
module _ (red : Red) (fuel : ℕ) where
  pregunta-Fichas :
      (f : Fase) (socket : ℕ) (r : Header) (s : Estado)
      → (r.id == 11) ≡ false
      → Fichas f s
      → Ensures (Fichas f) (turno_scheduler red fuel socket (some r) s)
  unfolding Fichas
  pregunta-Fichas desocupado socket r s e h =
      Ensures-mono _ (λ t w. absurd (omega (arith, w.0, h.0)))
        (turno_scheduler-abort red fuel socket (some r) s (λ k. absurd (omega (arith, k, h.0))))
  pregunta-Fichas (espera_scheduler op) socket r s e h =
      Ensures-mono _
        (λ t (g, (o, i, p, q, st, k)).
          (h.0, o ∙ h.1, omega (arith, g, i, p, h.2), q ∙ h.3, st ∙ h.4))
        (turno_scheduler-Respondida red fuel socket r s (ap es_pedido h.1 ∙ h.0) e)
  pregunta-Fichas (espera_instance op) socket r s e h =
      Ensures-mono _ (λ t w. absurd (omega (arith, w.0, h.2)))
        (turno_scheduler-abort red fuel socket (some r) s (λ k. absurd (omega (arith, k, h.2))))
  pregunta-Fichas abortado socket r s e h =
      Ensures-mono _
        (λ t (g, c). (
          λ k. absurd (omega (arith, k, c.esi, g, h.1)),
          omega (arith, c.esi, h.1),
          c.response ∙ h.2,
          c.result ∙ h.3,
          omega (arith, c.starts, h.4),
        ))
        (turno_scheduler-abort red fuel socket (some r) s h.0)

  trabaja-Fichas :
      (f : Fase) (i socket : ℕ) (previo r : Header) (carga : List ℕ) (s : Estado)
      → (r.id == 11) ≡ false
      → Fichas f s
      → Ensures (Fichas f) (turno_instance red fuel i socket previo (r ∷ []) carga s)
  unfolding Fichas
  trabaja-Fichas desocupado i socket previo r carga s e h =
      Ensures-mono _ (λ t w. absurd (omega (arith, w, h.3)))
        (turno_instance-start red fuel i socket previo (r ∷ []) carga s)
  trabaja-Fichas (espera_scheduler op) i socket previo r carga s e h =
      Ensures-mono _ (λ t w. absurd (omega (arith, w, h.4)))
        (turno_instance-start red fuel i socket previo (r ∷ []) carga s)
  trabaja-Fichas (espera_instance op) i socket previo r carga s e h =
      Ensures-mono _
        (λ t (o, x, y, q, st, k).
          (h.0, o ∙ h.1, omega (arith, x, y, h.2), omega (arith, q, st, h.3)))
        (turno_instance-Trabajada red fuel i socket previo r carga s (ap es_pedido h.1 ∙ h.0) e)
  trabaja-Fichas abortado i socket previo r carga s e h =
      Ensures-mono _ (λ t w. absurd (omega (arith, w, h.4)))
        (turno_instance-start red fuel i socket previo (r ∷ []) carga s)

-- Every turn keeps the semaphores as the stage of the ESI says: if they are so before the turn, they are so after it.
pub Paso-Fichas :
    (sorting : Sorting) (red : Red) (dic : Dictionary) (fuel : ℕ) (p q : Punto)
    → Fichas p.hilo.fase p.estado
    → Paso sorting red dic fuel p q
    → Fichas q.hilo.fase q.estado
Paso-Fichas sorting red dic fuel p q h (llega m carga l e) =
    subst EnPunto (sym e) (mensaje-Fichas dic m carga p.hilo p.estado l h)
Paso-Fichas sorting red dic fuel p q h (pregunta socket r n e d) =
    subst (λ t. Fichas t.fase q.estado) (sym e)
      ((pregunta-Fichas red fuel p.hilo.fase socket r p.estado n h).value q.estado d)
Paso-Fichas sorting red dic fuel p q h (trabaja i socket previo r carga n e d) =
    subst (λ t. Fichas t.fase q.estado) (sym e)
      ((trabaja-Fichas red fuel p.hilo.fase i socket previo r carga p.estado n h).value q.estado d)
Paso-Fichas sorting red dic fuel p q h (sigue d) = turno_esi-Fichas sorting red dic fuel p q h d

-- From a point where the semaphores are as the stage of the ESI says, every sequence of turns leads to one.
pub Alcanza-Fichas :
    (sorting : Sorting) (red : Red) (dic : Dictionary) (fuel : ℕ) (p q : Punto)
    → Fichas p.hilo.fase p.estado
    → Alcanza sorting red dic fuel p q
    → Fichas q.hilo.fase q.estado
Alcanza-Fichas sorting red dic fuel p _ h aqui = h
Alcanza-Fichas sorting red dic fuel p q h (luego {q = r} a b) =
    Paso-Fichas sorting red dic fuel r q (Alcanza-Fichas sorting red dic fuel p r h a) b
