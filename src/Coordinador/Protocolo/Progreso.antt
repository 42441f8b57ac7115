-- ===== src/Coordinador/Protocolo/Progreso.antt =====
-- No wake-up is lost: while the thread of an ESI waits, what it waits for is there or can come.
use tp_re_distinto_so.Base.{
  ℕ, suc, ◌-◌, ◌≡◌, ◌<◌, refl, sym, ◌∙◌, ap, subst, Bool, true, false, List, [], ◌∷◌, none, some,
  Outcome, done, waits, fault, ◌>>=◌, if◌then◌else◌, ◌==◌, arith, ◌⊎◌, inl, inr, Sorting,
  Bool-cases, get_elem?, update_at,
}
use tp_re_distinto_so.Coordinador.Estado.{Operation, Header, Instance, Estado, Red, instancia_de}
use tp_re_distinto_so.Coordinador.Claves.{Dictionary}
use tp_re_distinto_so.Coordinador.Asignar.Conserva.{total_start, con_start}
use tp_re_distinto_so.Coordinador.Mensajes.{
  initiate_compactation, sin_respuesta, process_flag, process_message_header, wait_start,
}
use tp_re_distinto_so.Coordinador.Hilos.{
  caso_set, caso_de, turno_instance, preguntar, consulta_de, turno_scheduler, ultima,
}
use tp_re_distinto_so.Coordinador.Operaciones.{
  Fase, desocupado, espera_scheduler, espera_instance, abortado, Punto, wait_response, wait_result,
}
use tp_re_distinto_so.Coordinador.Protocolo.{Alcanza}
use tp_re_distinto_so.Coordinador.Protocolo.Turnos.{es_pedido}
use tp_re_distinto_so.Coordinador.Protocolo.Fichas.{Fichas}
use tp_re_distinto_so.Coordinador.Protocolo.Fichas.Alcance.{Alcanza-Fichas}

-- The outcome is a value.
abbrev pub Termina : Outcome Estado → Type 0
Termina o = (t : Estado) × (o ≡ done t)

tras_done :
    (o : Outcome Estado) (f : Estado → Outcome Estado)
    → Termina o
    → ((t : Estado) → Termina (f t))
    → Termina (o >>= f)
tras_done o f (t, e) k = rw e (k t)

tras_if : (b : Bool) (s : Outcome Estado) → b ≡ false → Termina s → Termina (if b then waits else s)
tras_if b s e h = rw e h

empieza_en :
    (s : Estado) (i : ℕ) (q : Instance)
    → (q.start == 0) ≡ false
    → (t : Estado) × ((if q.start == 0
          then waits
          else done (record s {
            instances = update_at i (λ r. record r { start = r.start - 1 }) s.instances;
          }))
        ≡ done t)
      × (t.operation ≡ s.operation)
empieza_en s i q e = rw e (_, refl, refl)

empieza :
    (s : Estado) (i : ℕ) (q : Instance)
    → get_elem? s.instances i ≡ some q
    → 0 < q.start
    → (t : Estado) × (wait_start i s ≡ done t) × (t.operation ≡ s.operation)
unfolding wait_start instancia_de
empieza s i q g w =
    let e : (q.start == 0) ≡ false = ground (arith, w) in
    let (t, d, o) = empieza_en s i q e in
    (
      t,
      ap
            (λ x. elim x as (λ y. Outcome Instance) [ none ↦ fault | some v ↦ done v ] >>= λ v.
              if v.start == 0
              then waits
              else done (record s {
                instances = update_at i (λ r. record r { start = r.start - 1 }) s.instances;
              }))
            g
          ∙ d,
      o,
    )

module _ (red : Red) (fuel : ℕ) (r : Header) (e : (r.id == 11) ≡ false) where
  process-done :
      (socket : ℕ) (rs : List Header) (s : Estado)
      → Termina (process_message_header red (suc fuel) r socket rs s)
  unfolding process_message_header
  process-done socket rs s = (
    process_flag r.id s,
    ap
        (λ b. elim b [
          | false ↦ done (process_flag r.id s)
          | true ↦ do
            s1 ← initiate_compactation red socket s
            elim rs [
              | [] ↦ do
                s2 ← sin_respuesta red socket s1
                process_message_header red fuel r socket [] s2
              | r' ∷ rs' ↦ process_message_header red fuel r' socket rs' s1
            ]
        ])
        e,
  )

  preguntar-done :
      (socket id : ℕ) (s : Estado) → Termina (preguntar red (suc fuel) socket id (some r) s)
  unfolding preguntar
  preguntar-done socket id s = tras_done _ _ (process-done socket [] _) (λ t. (_, refl))

  consulta-done :
      (op : Operation) (socket : ℕ) (s : Estado)
      → es_pedido op ≡ true
      → Termina (consulta_de red (suc fuel) op socket (some r) s)
  unfolding consulta_de
  consulta-done Operation.get socket s h = preguntar-done socket 31 s
  consulta-done Operation.set socket s h = preguntar-done socket 33 s
  consulta-done Operation.store socket s h = preguntar-done socket 32 s
  consulta-done Operation.status socket s h = cc
  consulta-done Operation.abort socket s h = cc
  consulta-done Operation.compact socket s h = cc

  scheduler-done :
      (socket : ℕ) (s : Estado)
      → es_pedido s.operation ≡ true
      → 0 < s.esi_operation
      → Termina (turno_scheduler red (suc fuel) socket (some r) s)
  unfolding turno_scheduler
  scheduler-done socket s h w =
      tras_if (s.esi_operation == 0) _ (ground (arith, w)) (consulta-done s.operation socket _ h)

  caso-done :
      (op : Operation) (p socket : ℕ) (previo : Header) (carga : List ℕ) (s : Estado)
      → es_pedido op ≡ true
      → Termina (caso_de red (suc fuel) op p socket previo (r ∷ []) carga s)
  unfolding caso_de caso_set ultima
  caso-done Operation.get p socket previo carga s h = (_, refl)
  caso-done Operation.set p socket previo carga s h =
      tras_done _ _ (process-done socket [] _) (λ t. (_, refl))
  caso-done Operation.store p socket previo carga s h = (_, refl)
  caso-done Operation.status p socket previo carga s h = cc
  caso-done Operation.abort p socket previo carga s h = cc
  caso-done Operation.compact p socket previo carga s h = cc

  instance-done :
      (socket : ℕ) (previo : Header) (carga : List ℕ) (s : Estado)
      → es_pedido s.operation ≡ true
      → 0 < total_start s.instances
      → (i : ℕ) × Termina (turno_instance red (suc fuel) i socket previo (r ∷ []) carga s)
  unfolding turno_instance
  instance-done socket previo carga s h w =
      let (i, q, g, v) = con_start s.instances w in
      let (t, d, o) = empieza s i q g v in
      (
        i,
        subst
            (λ m.
              Termina
                (m >>= λ s'. caso_de red (suc fuel) s'.operation i socket previo (r ∷ []) carga s'))
            (sym d) (caso-done t.operation i socket previo carga t (ap es_pedido o ∙ h)),
      )

  -- Who can go on: at a wait for the scheduler, its thread or that of the ESI; at a wait for an instance,
  -- the thread of one of them or that of the ESI.
  pub Adelanta : ℕ → Header → List ℕ → Fase → Estado → Type 0
  Adelanta socket previo carga desocupado s = Unit
  Adelanta socket previo carga abortado s = Unit
  Adelanta socket previo carga (espera_scheduler op) s =
      Termina (turno_scheduler red (suc fuel) socket (some r) s) ⊎ Termina (wait_response s)
  Adelanta socket previo carga (espera_instance op) s =
      ((i : ℕ) × Termina (turno_instance red (suc fuel) i socket previo (r ∷ []) carga s))
      ⊎ Termina (wait_result s)

  Fichas-Adelanta :
      (socket : ℕ) (previo : Header) (carga : List ℕ) (f : Fase) (s : Estado)
      → Fichas f s
      → Adelanta socket previo carga f s
  unfolding Fichas Adelanta wait_response wait_result
  Fichas-Adelanta socket previo carga desocupado s h = tt
  Fichas-Adelanta socket previo carga abortado s h = tt
  Fichas-Adelanta socket previo carga (espera_scheduler op) s h =
      elim (Bool-cases (s.scheduler_response == 0)) [
        | inl z ↦ inl (scheduler-done socket s (ap es_pedido h.1 ∙ h.0) (ground (arith, z, h.2)))
        | inr z ↦ inr (tras_if (s.scheduler_response == 0) _ z (_, refl))
      ]
  Fichas-Adelanta socket previo carga (espera_instance op) s h =
      elim (Bool-cases (s.result_instance == 0)) [
        | inl z ↦
            inl (
              instance-done socket previo carga s (ap es_pedido h.1 ∙ h.0) (ground (arith, z, h.3)))
        | inr z ↦ inr (tras_if (s.result_instance == 0) _ z (_, refl))
      ]

-- At each point that turns lead to from one where the semaphores are as the stage of the ESI says,
-- someone can go on while an ESI waits, if the answer that comes does not ask for a compaction: for
-- the scheduler, its thread answers or has answered; for an instance, one that was told to work
-- answers or has answered.
pub Alcanza-Adelanta :
    (sorting : Sorting) (red : Red) (dic : Dictionary) (fuel socket : ℕ) (previo r : Header)
    (carga : List ℕ) (e : (r.id == 11) ≡ false) (p q : Punto)
    → Fichas p.hilo.fase p.estado
    → Alcanza sorting red dic fuel p q
    → Adelanta red fuel r e socket previo carga q.hilo.fase q.estado
Alcanza-Adelanta sorting red dic fuel socket previo r carga e p q h a =
    Fichas-Adelanta red fuel r e socket previo carga q.hilo.fase q.estado
      (Alcanza-Fichas sorting red dic fuel p q h a)
