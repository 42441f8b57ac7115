-- ===== src/Coordinador/Protocolo/Turnos/Trabajo.antt =====
-- What a turn of host_instance does to the semaphores.
use tp_re_distinto_so.Base.{
  ℕ, ◌+◌, ◌≡◌, ◌<◌, refl, ◌∙◌, ap, true, false, List, [], ◌∷◌, ◌++◌, some, fault, waits, ◌==◌,
  get_elem?, length, arith, Ensures, Ensures-done, Ensures-fault, Ensures-waits, Ensures-if,
  Ensures-mono, Ensures-option, Ensures->>=,
}
use tp_re_distinto_so.Coordinador.Estado.{Operation, Header, Estado, Red, instancia_de}
use tp_re_distinto_so.Coordinador.Asignar.Conserva.{total_start, total_start-tomar, Conserva-trans}
use tp_re_distinto_so.Coordinador.Mensajes.{update_instance, process_message_header, wait_start}
use tp_re_distinto_so.Coordinador.Hilos.{
  post_result, mandar, caso_get, caso_store, caso_set, caso_de, turno_instance, cabecera_set,
  carga_set, ultima,
}
use tp_re_distinto_so.Coordinador.Protocolo.Turnos.{
  es_pedido, mandar-Conserva, update_instance-Conserva, process-Conserva,
}

-- The thread of an instance has worked.
abbrev pub Trabajada : Estado → Estado → Type 0
Trabajada s t =
    (t.operation ≡ s.operation)
    × (t.esi_operation ≡ s.esi_operation)
    × (t.scheduler_response ≡ s.scheduler_response)
    × (t.result_instance ≡ s.result_instance + 1)
    × (total_start t.instances ≡ total_start s.instances)
    × (t.key ≡ s.key)

module _ (red : Red) (fuel : ℕ) where
  tras_enviar :
      (socket id len len2 : ℕ) (carga : List ℕ) (s : Estado)
      → Trabajada s (post_result (mandar socket id len len2 carga s))
  unfolding post_result
  tras_enviar socket id len len2 carga s =
      let d = mandar-Conserva socket id len len2 carga s in
      (d.operation, d.esi, d.response, omega (arith, d.result), omega (arith, d.starts), d.key)

  caso_set-Trabajada :
      (p socket : ℕ) (r : Header) (s : Estado)
      → (r.id == 11) ≡ false
      → Ensures (Trabajada s) (caso_set red fuel p socket (r ∷ []) s)
  unfolding caso_set ultima post_result cabecera_set
  caso_set-Trabajada p socket r s e =
      let s1 =
        mandar socket 12 (length s.key + 1) (length s.value + 1) (carga_set s.key s.value) s in
      let m =
        mandar-Conserva socket 12 (length s.key + 1) (length s.value + 1) (carga_set s.key s.value)
          s in
      Ensures->>= (process_message_header red fuel r socket [] s1) _
        (process-Conserva red r socket [] e fuel s1)
        (λ t c.
          let u = update_instance t.algorithm p r t in
          let d =
            Conserva-trans 0 0 s t u (Conserva-trans 0 0 s s1 t m c)
              (update_instance-Conserva t.algorithm p r t) in
          Ensures-done _ (
            d.operation,
            d.esi,
            d.response,
            omega (arith, d.result),
            omega (arith, d.starts),
            d.key,
          ))

  caso-Trabajada :
      (op : Operation) (p socket : ℕ) (previo r : Header) (carga : List ℕ) (s : Estado)
      → es_pedido op ≡ true
      → (r.id == 11) ≡ false
      → Ensures (Trabajada s) (caso_de red fuel op p socket previo (r ∷ []) carga s)
  unfolding caso_de caso_get caso_store
  caso-Trabajada Operation.get p socket previo r carga s h e =
      Ensures-done _ (tras_enviar socket 13 (length s.key) 0 (s.key ++ 0 ∷ []) s)
  caso-Trabajada Operation.set p socket previo r carga s h e = caso_set-Trabajada p socket r s e
  caso-Trabajada Operation.store p socket previo r carga s h e =
      Ensures-done _ (tras_enviar socket 14 (length s.key) 0 (s.key ++ 0 ∷ []) s)
  caso-Trabajada Operation.status p socket previo r carga s h e = cc
  caso-Trabajada Operation.abort p socket previo r carga s h e = cc
  caso-Trabajada Operation.compact p socket previo r carga s h e = cc

-- The thread of an instance has begun, and one instance less is told to work.
abbrev pub Empezada : Estado → Estado → Type 0
Empezada s t =
    (t.operation ≡ s.operation)
    × (t.esi_operation ≡ s.esi_operation)
    × (t.scheduler_response ≡ s.scheduler_response)
    × (t.result_instance ≡ s.result_instance)
    × (total_start t.instances + 1 ≡ total_start s.instances)
    × (t.key ≡ s.key)

instancia_de-get_elem :
    (s : Estado) (p : ℕ) → Ensures (λ q. get_elem? s.instances p ≡ some q) (instancia_de s p)
unfolding instancia_de
instancia_de-get_elem s p =
    Ensures-option (get_elem? s.instances p) fault _ (λ e. Ensures-fault) (λ q e. Ensures-done q e)

wait_start-Empezada : (p : ℕ) (s : Estado) → Ensures (Empezada s) (wait_start p s)
unfolding wait_start
wait_start-Empezada p s = Ensures->>= (instancia_de s p) _ (instancia_de-get_elem s p) (λ q e.
    Ensures-if (q.start == 0) waits _ (λ z. Ensures-waits)
      (λ z.
        Ensures-done _
          (refl, refl, refl, refl, total_start-tomar p s.instances q e (ground (arith, z)), refl)))

-- Only an instance that was told to works.
pub turno_instance-start :
    (red : Red) (fuel p socket : ℕ) (previo : Header) (rs : List Header) (carga : List ℕ)
    (s : Estado)
    → Ensures
        (λ t. 0 < total_start s.instances)
        (turno_instance red fuel p socket previo rs carga s)
unfolding turno_instance
turno_instance-start red fuel p socket previo rs carga s =
    Ensures->>= (wait_start p s) _ (wait_start-Empezada p s)
      (λ t b. record { value = λ u e. omega (arith, b.4) })

-- An instance that was told to work does it, and posts the result.
pub turno_instance-Trabajada :
    (red : Red) (fuel p socket : ℕ) (previo r : Header) (carga : List ℕ) (s : Estado)
    → es_pedido s.operation ≡ true
    → (r.id == 11) ≡ false
    → Ensures
        (λ t.
          (t.operation ≡ s.operation)
          × (t.esi_operation ≡ s.esi_operation)
          × (t.scheduler_response ≡ s.scheduler_response)
          × (t.result_instance ≡ s.result_instance + 1)
          × (total_start t.instances + 1 ≡ total_start s.instances)
          × (t.key ≡ s.key))
        (turno_instance red fuel p socket previo (r ∷ []) carga s)
unfolding turno_instance
turno_instance-Trabajada red fuel p socket previo r carga s h e =
    Ensures->>= (wait_start p s) _ (wait_start-Empezada p s) (λ t b.
      Ensures-mono _
        (λ u w. (
          w.0 ∙ b.0,
          w.1 ∙ b.1,
          w.2 ∙ b.2,
          omega (arith, w.3, b.3),
          omega (arith, w.4, b.4),
          w.5 ∙ b.5,
        ))
        (caso-Trabajada red fuel t.operation p socket previo r carga t (ap es_pedido b.0 ∙ h) e))
