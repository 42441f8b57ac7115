-- ===== src/Coordinador/Protocolo/Propias.antt =====
-- The instances set and store only keys that the ESI asked for with a GET and has not given back.
pub mod Historia
pub mod Alcance
use tp_re_distinto_so.Base.{
  ℕ, ◌+◌, ◌-◌, ◌≡◌, ◌<◌, refl, sym, ◌∙◌, ap, subst, Bool, true, false, List, [], ◌∷◌, Option, none,
  some, Text, Outcome, done, waits, ◌>>=◌, if◌then◌else◌, ◌==◌, arith, ◌⊎◌, inl, inr, Sorting,
  Ensures, Ensures-done, Ensures-waits, Ensures-if, Ensures-mono, Ensures->>=,
}
use tp_re_distinto_so.Coordinador.Estado.{
  Operation, get, set, store, Header, Estado, Red, send_header, enviar,
}
use tp_re_distinto_so.Coordinador.Mensajes.{abort_esi}
use tp_re_distinto_so.Coordinador.Claves.{Dictionary, Guardado, save_on_instance}
use tp_re_distinto_so.Coordinador.Asignar.{assign_instance}
use tp_re_distinto_so.Coordinador.Asignar.Conserva.{Conserva}
use tp_re_distinto_so.Coordinador.Asignar.Conserva.Asigna.{
  GuardadoBien, assign_instance-Conserva, save_on_instance-Bien,
}
use tp_re_distinto_so.Coordinador.Hilos.{turno_instance, turno_scheduler}
use tp_re_distinto_so.Coordinador.Operaciones.{
  Fase, desocupado, espera_scheduler, espera_instance, abortado, Hilo, Punto, texto_de, valor_de,
  wait_response, wait_result, pedir, abortar, contestar, esperar_instance, empezar_get,
  pedir_propia, empezar_set, empezar_store, process_message_header_esi, terminar_get, terminar_set,
  terminar_store, terminar_de, tras_guardar, seguir_store, seguir_set, seguir_get, seguir_de,
  turno_esi,
}
use tp_re_distinto_so.Coordinador.Protocolo.Turnos.{
  es_pedido, turno_scheduler-Respondida, turno_scheduler-abort,
}
use tp_re_distinto_so.Coordinador.Protocolo.Turnos.Trabajo.{
  turno_instance-Trabajada, turno_instance-start,
}
use tp_re_distinto_so.Coordinador.Protocolo.Fichas.{Fichas, con_result}
use tp_re_distinto_so.Coordinador.Protocolo.Fichas.Alcance.{Paso-Fichas, Alcanza-Fichas}

module _ (dic : Dictionary) where
  -- SET and STORE need the key of the message among those that the ESI got.
  unfoldable pub Autoriza : Operation → List Text → Text → Type 0
  Autoriza Operation.get ks k = Unit
  Autoriza Operation.set ks k = dic.has_key ks k ≡ true
  Autoriza Operation.store ks k = dic.has_key ks k ≡ true
  Autoriza Operation.status ks k = Unit
  Autoriza Operation.abort ks k = Unit
  Autoriza Operation.compact ks k = Unit

  unfoldable pub Propia : Fase → List Text → Text → Type 0
  unfolding Autoriza
  Propia desocupado ks k = Unit
  Propia abortado ks k = Unit
  Propia (espera_scheduler op) ks k = Autoriza op ks k
  Propia (espera_instance op) ks k = Autoriza op ks k

  abbrev pub EnPunto : Punto → Type 0
  EnPunto q = Propia q.hilo.fase q.hilo.blocked_keys q.estado.key

  segun :
      (b : Bool) (q r : Punto) → (b ≡ true → EnPunto q) → EnPunto r → EnPunto (if b then q else r)
  segun true q r h k = h refl
  segun false q r h k = k

  pedir_propia-Propia :
      (op : Operation) (t : Hilo) (s : Estado)
      → (dic.has_key t.blocked_keys s.key ≡ true → Autoriza op t.blocked_keys s.key)
      → EnPunto (pedir_propia dic op t s)
  unfolding pedir_propia pedir abortar abort_esi send_header enviar Propia
  pedir_propia-Propia op t s h =
      segun (dic.has_key t.blocked_keys s.key) (pedir op t s) (abortar 1 t s) h tt

  pub mensaje-Propia :
      (h : Header) (carga : List ℕ) (t : Hilo) (s : Estado)
      → t.fase ≡ desocupado
      → EnPunto (process_message_header_esi dic h carga t s)
  unfolding process_message_header_esi empezar_get empezar_set empezar_store pedir abortar abort_esi
      send_header enviar Propia Autoriza
  mensaje-Propia h carga t s l =
      let u : Estado = record s { key = texto_de h carga } in
      let v : Estado = record s {
        key = texto_de h carga;
        value = valor_de s.max_storage_size h carga;
      } in
      let nada : Punto = record { hilo = t; estado = s } in
      let q : Punto = if h.id == 25 then abortar 1 t s else nada in
      let q' : Punto = if h.id == 23 then empezar_store dic h carga t s else q in
      let q'' : Punto = if h.id == 22 then empezar_set dic h carga t s else q' in
      segun (h.id == 21) (empezar_get h carga t s) q'' (λ e. tt)
        (segun (h.id == 22) (empezar_set dic h carga t s) q'
          (λ e. pedir_propia-Propia Operation.set t v (λ k. k))
          (segun (h.id == 23) (empezar_store dic h carga t s) q
            (λ e. pedir_propia-Propia Operation.store t u (λ k. k))
            (segun (h.id == 25) (abortar 1 t s) nada (λ e. tt)
              (subst (λ f. Propia f t.blocked_keys s.key) (sym l) tt))))

  terminar-Propia :
      (op : Operation) (t : Hilo) (s : Estado)
      → es_pedido op ≡ true
      → EnPunto (terminar_de dic op t s)
  unfolding terminar_de terminar_get terminar_set terminar_store contestar abortar abort_esi
      send_header enviar Propia
  terminar-Propia Operation.get t s p = tt
  terminar-Propia Operation.set t s p =
      segun s.result (contestar 23 t s) (abortar 2 t s) (λ e. tt) tt
  terminar-Propia Operation.store t s p = tt
  terminar-Propia Operation.status t s p = cc
  terminar-Propia Operation.abort t s p = cc
  terminar-Propia Operation.compact t s p = cc

  module _ (red : Red) where
    guardar-Propia :
        (op : Operation) (t : Hilo) (s : Estado) (g : Guardado)
        → Autoriza op t.blocked_keys s.key
        → GuardadoBien s g
        → EnPunto (tras_guardar dic red op t g)
    unfolding tras_guardar esperar_instance abortar abort_esi send_header enviar Propia
    guardar-Propia op t s g h (inl (e, c)) = rw e (subst (Autoriza op t.blocked_keys) (sym c.key) h)
    guardar-Propia op t s g h (inr (e, c)) = rw e tt

    module _ (sorting : Sorting) (fuel : ℕ) where
      seguir-Propia :
          (op : Operation) (t : Hilo) (s : Estado)
          → es_pedido op ≡ true
          → Autoriza op t.blocked_keys s.key
          → Ensures EnPunto (seguir_de dic red sorting fuel op t s)
      unfolding seguir_de seguir_get seguir_set seguir_store contestar esperar_instance abortar
          abort_esi send_header enviar Propia Autoriza
      seguir-Propia Operation.get t s p h =
          Ensures-if s.key_is_not_blocked _ _
            (λ b.
              Ensures->>= (assign_instance sorting red dic fuel s) _
                (assign_instance-Conserva sorting red dic fuel s) (λ u c. Ensures-done _ tt))
            (λ b. Ensures-done _ tt)
      seguir-Propia Operation.set t s p h =
          Ensures-if s.key_is_not_blocked _ _
            (λ b.
              Ensures->>= (save_on_instance red dic s) _ (save_on_instance-Bien red dic s)
                (λ g w. Ensures-done _ (guardar-Propia set t s _ h (con_result dic red s g w))))
            (λ b. Ensures-done _ tt)
      seguir-Propia Operation.store t s p h =
          Ensures-if s.key_is_not_blocked _ _
            (λ b.
              Ensures->>= (save_on_instance red dic s) _ (save_on_instance-Bien red dic s)
                (λ g w. Ensures-done _ (guardar-Propia store t s g h w)))
            (λ b. Ensures-done _ tt)
      seguir-Propia Operation.status t s p h = cc
      seguir-Propia Operation.abort t s p h = cc
      seguir-Propia Operation.compact t s p h = cc

      esi-Propia :
          (f : Fase) (t : Hilo) (s : Estado)
          → Fichas f s
          → Propia f t.blocked_keys s.key
          → Ensures EnPunto (elim f [
            | desocupado ↦ waits
            | abortado ↦ waits
            | espera_scheduler op ↦
                (wait_response s >>= λ s'. seguir_de dic red sorting fuel op t s')
            | espera_instance op ↦ do s' ← wait_result s; done (terminar_de dic op t s')
          ])
      unfolding Fichas Propia wait_response wait_result
      esi-Propia desocupado t s h k = Ensures-waits
      esi-Propia abortado t s h k = Ensures-waits
      esi-Propia (espera_scheduler op) t s h k =
          Ensures->>=
            (if s.scheduler_response == 0
              then waits
              else done (record s { scheduler_response = s.scheduler_response - 1 }))
            _
            (Ensures-if {P = λ u. u.key ≡ s.key} (s.scheduler_response == 0) waits _
              (λ z. Ensures-waits) (λ z. Ensures-done _ refl))
            (λ u w. seguir-Propia op t u h.0 (subst (Autoriza op t.blocked_keys) (sym w) k))
      esi-Propia (espera_instance op) t s h k =
          Ensures->>=
            (if s.result_instance == 0
              then waits
              else done (record s { result_instance = s.result_instance - 1 }))
            _
            (Ensures-if {P = λ u. Unit {0}} (s.result_instance == 0) waits _ (λ z. Ensures-waits)
              (λ z. Ensures-done _ tt))
            (λ u w. Ensures-done _ (terminar-Propia op t u h.0))

      pub turno_esi-Propia :
          (p q : Punto)
          → Fichas p.hilo.fase p.estado
          → EnPunto p
          → turno_esi dic red sorting fuel p.hilo p.estado ≡ done q
          → EnPunto q
      unfolding turno_esi
      turno_esi-Propia p q h k d = (esi-Propia p.hilo.fase p.hilo p.estado h k).value q d
