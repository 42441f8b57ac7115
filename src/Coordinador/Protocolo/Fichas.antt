-- ===== src/Coordinador/Protocolo/Fichas.antt =====
-- The semaphores of the coordinator while it serves an ESI: where its thread stands says their values.
pub mod Alcance
use tp_re_distinto_so.Base.{
  ℕ, zero, suc, ◌+◌, ◌-◌, ◌≡◌, ◌<◌, ◌≤◌, refl, sym, ◌∙◌, ap, subst, Bool, true, false, not, List,
  [], ◌∷◌, Option, none, some, Outcome, done, fault, waits, ◌>>=◌, if◌then◌else◌, ◌==◌, arith, ◌⊎◌,
  inl, inr, Sorting, Ensures, Ensures-done, Ensures-waits, Ensures-spent, Ensures-if, Ensures-elim,
  Ensures-mono, Ensures->>=,
}
use tp_re_distinto_so.Coordinador.Estado.{
  Operation, get, set, store, abort, Header, Estado, Red, send_header, enviar,
}
use tp_re_distinto_so.Coordinador.Mensajes.{abort_esi}
use tp_re_distinto_so.Coordinador.Claves.{Dictionary, Guardado, save_on_instance}
use tp_re_distinto_so.Coordinador.Asignar.{assign_instance}
use tp_re_distinto_so.Coordinador.Asignar.Conserva.{
  total_start, Conserva, Conserva-refl, Conserva-trans, Conserva-otros,
}
use tp_re_distinto_so.Coordinador.Asignar.Conserva.Asigna.{
  GuardadoBien, assign_instance-Conserva, save_on_instance-Bien,
}
use tp_re_distinto_so.Coordinador.Hilos.{turno_instance, turno_scheduler}
use tp_re_distinto_so.Coordinador.Operaciones.{
  Fase, desocupado, espera_scheduler, espera_instance, abortado, Hilo, Punto, texto_de, valor_de,
  wait_response, wait_result, pedir, abortar, contestar, esperar_instance, empezar_get,
  pedir_propia, empezar_set, empezar_store, process_message_header_esi, terminar_get, terminar_set,
  terminar_store, terminar_de, tras_guardar, seguir_store, seguir_set, seguir_get, seguir_de,
  turno_esi,
}
use tp_re_distinto_so.Coordinador.Protocolo.Turnos.{
  es_pedido, turno_scheduler-Respondida, turno_scheduler-abort,
}
use tp_re_distinto_so.Coordinador.Protocolo.Turnos.Trabajo.{
  Empezada, turno_instance-Trabajada, turno_instance-start,
}

-- What is asked for and not yet answered: nothing when the ESI may send a message; one question or one
-- answer of the scheduler; one instance that is told to work or has worked; after an abort, at most the
-- notice to the scheduler.
unfoldable pub Fichas : Fase → Estado → Type 0
Fichas desocupado s =
    (s.esi_operation ≡ 0)
    × (s.scheduler_response ≡ 0)
    × (s.result_instance ≡ 0)
    × (total_start s.instances ≡ 0)
Fichas (espera_scheduler op) s =
    (es_pedido op ≡ true)
    × (s.operation ≡ op)
    × (s.esi_operation + s.scheduler_response ≡ 1)
    × (s.result_instance ≡ 0)
    × (total_start s.instances ≡ 0)
Fichas (espera_instance op) s =
    (es_pedido op ≡ true)
    × (s.operation ≡ op)
    × (s.esi_operation + s.scheduler_response ≡ 0)
    × (s.result_instance + total_start s.instances ≡ 1)
Fichas abortado s =
    (0 < s.esi_operation → s.operation ≡ abort)
    × (s.esi_operation ≤ 1)
    × (s.scheduler_response ≡ 0)
    × (s.result_instance ≡ 0)
    × (total_start s.instances ≡ 0)

abbrev pub EnPunto : Punto → Type 0
EnPunto q = Fichas q.hilo.fase q.estado

en_ambos : (P : Punto → Type 0) (b : Bool) (q r : Punto) → P q → P r → P (if b then q else r)
en_ambos P true q r h k = h
en_ambos P false q r h k = k

pedir-Fichas :
    (op : Operation) (t : Hilo) (s : Estado)
    → es_pedido op ≡ true
    → Fichas desocupado s
    → EnPunto (pedir op t s)
unfolding Fichas pedir
pedir-Fichas op t s p h = (p, refl, omega (arith, h.0, h.1), h.2, h.3)

abortar-Fichas-1 : (t : Hilo) (s : Estado) → Fichas desocupado s → EnPunto (abortar 1 t s)
unfolding Fichas abortar abort_esi send_header enviar
abortar-Fichas-1 t s h = (λ k. refl, omega (arith, h.0), h.1, h.2, h.3)

-- With nothing on its way the thread aborts the ESI or answers it.
abortar-Fichas-2 : (t : Hilo) (s : Estado) → Fichas desocupado s → EnPunto (abortar 2 t s)
unfolding Fichas abortar abort_esi send_header enviar
abortar-Fichas-2 t s h = (λ k. absurd (omega (arith, h.0, k)), omega (arith, h.0), h.1, h.2, h.3)

contestar-Fichas :
    (id : ℕ) (t : Hilo) (s : Estado) → Fichas desocupado s → EnPunto (contestar id t s)
unfolding Fichas contestar send_header enviar
contestar-Fichas id t s h = h

module _ (dic : Dictionary) where
  pedir_propia-Fichas :
      (op : Operation) (t : Hilo) (s : Estado)
      → es_pedido op ≡ true
      → Fichas desocupado s
      → EnPunto (pedir_propia dic op t s)
  unfolding pedir_propia
  pedir_propia-Fichas op t s p h =
      en_ambos EnPunto (dic.has_key t.blocked_keys s.key) (pedir op t s) (abortar 1 t s)
        (pedir-Fichas op t s p h) (abortar-Fichas-1 t s h)

  pub mensaje-Fichas :
      (h : Header) (carga : List ℕ) (t : Hilo) (s : Estado)
      → t.fase ≡ desocupado
      → Fichas t.fase s
      → EnPunto (process_message_header_esi dic h carga t s)
  unfolding process_message_header_esi empezar_get empezar_set empezar_store Fichas
  mensaje-Fichas h carga t s l k =
      let k' : Fichas desocupado s = subst (λ f. Fichas f s) l k in
      let u : Estado = record s { key = texto_de h carga } in
      let v : Estado = record s {
        key = texto_de h carga;
        value = valor_de s.max_storage_size h carga;
      } in
      let q : Punto = if h.id == 25 then abortar 1 t s else record { hilo = t; estado = s } in
      let q' : Punto = if h.id == 23 then empezar_store dic h carga t s else q in
      let q'' : Punto = if h.id == 22 then empezar_set dic h carga t s else q' in
      en_ambos EnPunto (h.id == 21) (empezar_get h carga t s) q'' (pedir-Fichas get t u refl k') (
        en_ambos EnPunto (h.id == 22) (empezar_set dic h carga t s) q'
          (pedir_propia-Fichas set t v refl k')
          (en_ambos EnPunto (h.id == 23) (empezar_store dic h carga t s) q
            (pedir_propia-Fichas store t u refl k')
            (en_ambos EnPunto (h.id == 25) (abortar 1 t s) (record { hilo = t; estado = s })
              (abortar-Fichas-1 t s k') k)))

  terminar-Fichas :
      (op : Operation) (t : Hilo) (s : Estado)
      → es_pedido op ≡ true
      → Fichas desocupado s
      → EnPunto (terminar_de dic op t s)
  unfolding terminar_de terminar_get terminar_set terminar_store
  terminar-Fichas Operation.get t s p h =
      contestar-Fichas 23 (record t { blocked_keys = dic.put t.blocked_keys s.key }) s h
  terminar-Fichas Operation.set t s p h =
      en_ambos EnPunto s.result (contestar 23 t s) (abortar 2 t s) (contestar-Fichas 23 t s h)
        (abortar-Fichas-2 t s h)
  terminar-Fichas Operation.store t s p h =
      contestar-Fichas 23 (record t { blocked_keys = dic.remove t.blocked_keys s.key }) s h
  terminar-Fichas Operation.status t s p h = cc
  terminar-Fichas Operation.abort t s p h = cc
  terminar-Fichas Operation.compact t s p h = cc

  -- One instance is told to work.
  esperar-Fichas :
      (op : Operation) (t : Hilo) (s u : Estado)
      → es_pedido op ≡ true
      → s.operation ≡ op
      → Fichas desocupado s
      → Conserva 1 s u
      → EnPunto (esperar_instance op t u)
  unfolding Fichas esperar_instance
  esperar-Fichas op t s u p o h c = (
    p,
    c.operation ∙ o,
    omega (arith, c.esi, c.response, h.0, h.1),
    omega (arith, c.result, c.starts, h.2, h.3),
  )

  desocupado-Conserva : (s u : Estado) → Conserva 0 s u → Fichas desocupado s → Fichas desocupado u
  unfolding Fichas
  desocupado-Conserva s u c h =
      (c.esi ∙ h.0, c.response ∙ h.1, c.result ∙ h.2, omega (arith, c.starts, h.3))

  module _ (red : Red) where
    guardar-Fichas :
        (op : Operation) (t : Hilo) (s : Estado) (g : Guardado)
        → es_pedido op ≡ true
        → s.operation ≡ op
        → Fichas desocupado s
        → GuardadoBien s g
        → EnPunto (tras_guardar dic red op t g)
    unfolding tras_guardar
    guardar-Fichas op t s g p o h (inl (e, c)) = rw e (esperar-Fichas op t s g.estado p o h c)
    guardar-Fichas op t s g p o h (inr (e, c)) =
        rw e (abortar-Fichas-2 t g.estado (desocupado-Conserva s g.estado c h))

    pub con_result :
        (s : Estado) (g : Guardado)
        → GuardadoBien s g
        → GuardadoBien s (record g { estado = record g.estado { result = g.ok } })
    con_result s g (inl (e, c)) =
        inl (e, Conserva-otros 1 s g.estado _ refl refl refl refl refl refl c)
    con_result s g (inr (e, c)) =
        inr (e, Conserva-otros 0 s g.estado _ refl refl refl refl refl refl c)

    module _ (sorting : Sorting) (fuel : ℕ) where
      seguir-Fichas :
          (op : Operation) (t : Hilo) (s : Estado)
          → es_pedido op ≡ true
          → s.operation ≡ op
          → Fichas desocupado s
          → Ensures EnPunto (seguir_de dic red sorting fuel op t s)
      unfolding seguir_de seguir_get seguir_set seguir_store
      seguir-Fichas Operation.get t s p o h =
          Ensures-if s.key_is_not_blocked _ _
            (λ b.
              Ensures->>= (assign_instance sorting red dic fuel s) _
                (assign_instance-Conserva sorting red dic fuel s)
                (λ u c. Ensures-done _ (esperar-Fichas get t s u p o h c)))
            (λ b. Ensures-done _ (contestar-Fichas 22 t s h))
      seguir-Fichas Operation.set t s p o h =
          Ensures-if s.key_is_not_blocked _ _
            (λ b.
              Ensures->>= (save_on_instance red dic s) _ (save_on_instance-Bien red dic s)
                (λ g w. Ensures-done _ (guardar-Fichas set t s _ p o h (con_result s g w))))
            (λ b. Ensures-done _ (abortar-Fichas-2 t s h))
      seguir-Fichas Operation.store t s p o h =
          Ensures-if s.key_is_not_blocked _ _
            (λ b.
              Ensures->>= (save_on_instance red dic s) _ (save_on_instance-Bien red dic s)
                (λ g w. Ensures-done _ (guardar-Fichas store t s g p o h w)))
            (λ b. Ensures-done _ (abortar-Fichas-2 t s h))
      seguir-Fichas Operation.status t s p o h = cc
      seguir-Fichas Operation.abort t s p o h = cc
      seguir-Fichas Operation.compact t s p o h = cc

      esi-Fichas :
          (f : Fase) (t : Hilo) (s : Estado)
          → Fichas f s
          → Ensures EnPunto (elim f [
            | desocupado ↦ waits
            | abortado ↦ waits
            | espera_scheduler op ↦
                (wait_response s >>= λ s'. seguir_de dic red sorting fuel op t s')
            | espera_instance op ↦ do s' ← wait_result s; done (terminar_de dic op t s')
          ])
      unfolding Fichas wait_response wait_result
      esi-Fichas desocupado t s h = Ensures-waits
      esi-Fichas abortado t s h = Ensures-waits
      esi-Fichas (espera_scheduler op) t s h =
          Ensures->>=
            (if s.scheduler_response == 0
              then waits
              else done (record s { scheduler_response = s.scheduler_response - 1 }))
            _
            (Ensures-if {P = λ u. (u.operation ≡ s.operation) × Fichas desocupado u}
              (s.scheduler_response == 0) waits _ (λ z. Ensures-waits)
              (λ z.
                Ensures-done _ (refl, (ground (arith, z, h.2), ground (arith, z, h.2), h.3, h.4))))
            (λ u w. seguir-Fichas op t u h.0 (w.0 ∙ h.1) w.1)
      esi-Fichas (espera_instance op) t s h =
          Ensures->>=
            (if s.result_instance == 0
              then waits
              else done (record s { result_instance = s.result_instance - 1 }))
            _
            (Ensures-if {P = λ u. Fichas desocupado u} (s.result_instance == 0) waits _
              (λ z. Ensures-waits)
              (λ z. Ensures-done _ (
                ground (arith, h.2),
                ground (arith, h.2),
                ground (arith, z, h.3),
                ground (arith, z, h.3),
              )))
            (λ u w. Ensures-done _ (terminar-Fichas op t u h.0 w))

-- A turn of the thread of the ESI.
pub turno_esi-Fichas :
    (sorting : Sorting) (red : Red) (dic : Dictionary) (fuel : ℕ) (p q : Punto)
    → Fichas p.hilo.fase p.estado
    → turno_esi dic red sorting fuel p.hilo p.estado ≡ done q
    → EnPunto q
unfolding turno_esi
turno_esi-Fichas sorting red dic fuel p q h d =
    (esi-Fichas dic red sorting fuel p.hilo.fase p.hilo p.estado h).value q d
