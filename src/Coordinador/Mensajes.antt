-- ===== src/Coordinador/Mensajes.antt =====
-- process_message_header, initiate_compactation, update_instance and abort_esi.
use tp_re_distinto_so.Base.{
  ℕ, zero, suc, ◌+◌, ◌-◌, true, false, List, [], ◌∷◌, Outcome, done, waits, spent, ◌>>=◌,
  if◌then◌else◌, ◌==◌, update_at, any_satisfy, length,
}
use tp_re_distinto_so.Coordinador.Estado.{
  Algorithm, el, lsu, ke, Operation, instance_client, esi_client, scheduler_client, Header,
  Instance, Estado, Red, instancia_de, post_start, send_header,
}
use tp_re_distinto_so.Coordinador.Claves.{Conexion, disconnect_socket, test_connection}

-- The instances that are told to compact, and the state.
pub record Filtro : Type 0 where
  pub indices : List ℕ
  pub estado : Estado

unfoldable pub update_instance : Algorithm → ℕ → Header → Estado → Estado
update_instance lsu p h s = record s {
  instances = update_at p (λ q. record q { free_space = h.len }) s.instances;
}
update_instance el p h s = s
update_instance ke p h s = s

-- Stage 1 is before the scheduler was asked, stage 2 after.
unfoldable pub abort_esi : ℕ → ℕ → Estado → Estado
abort_esi socket stage s =
    if stage == 1
    then send_header socket 24
        (record s { operation = Operation.abort; esi_operation = s.esi_operation + 1 })
    else (if stage == 2 then send_header socket 24 s else s)

-- process_message_header for the ids that only set a variable; another id does nothing.
unfoldable pub process_flag : ℕ → Estado → Estado
process_flag id s =
    if id == 10
    then record s { hello_id = instance_client }
    else (if id == 20
        then record s { hello_id = esi_client }
        else (if id == 30
            then record s { hello_id = scheduler_client }
            else (if id == 31
                then record s { key_is_not_blocked = true }
                else (if id == 32
                    then record s { key_is_not_blocked = false }
                    else (if id == 34
                        then record s { key_is_not_blocked = true }
                        else (if id == 35 then record s { key_is_not_blocked = false } else s))))))

-- Marks operation COMPACT and wakes the instance.
unfoldable pub pedir_compactar : List ℕ → Estado → Estado
unfolding post_start
pedir_compactar [] s = s
pedir_compactar (p ∷ ps) s =
    pedir_compactar ps (post_start p (record s { operation = Operation.compact }))

-- sem_wait(&start) in the thread of the instance p.
unfoldable pub wait_start : ℕ → Estado → Outcome Estado
wait_start p s = do
  q ← instancia_de s p
  if q.start == 0
      then waits
      else done
          (record s { instances = update_at p (λ r. record r { start = r.start - 1 }) s.instances })

-- The case COMPACT of host_instance, for an instance that answers.
unfoldable pub caso_compact : ℕ → Estado → Estado
unfolding send_header
caso_compact socket s = let s' = send_header socket 11 s in record s' { compact = s'.compact + 1 }

-- The turns of the instances that were woken, while the thread that asked for it waits.
unfoldable pub turnos_compact : List ℕ → Estado → Outcome Estado
unfolding wait_start caso_compact
turnos_compact [] s = done s
turnos_compact (p ∷ ps) s = do
  s' ← wait_start p s
  q ← instancia_de s' p
  turnos_compact ps (caso_compact q.socket s')

module _ (red : Red) where
  -- The test of list_filter. An instance that is not active leaves the function without a `return`,
  -- which is taken for false here.
  unfoldable pub debe_compactar : ℕ → Instance → Estado → Outcome Conexion
  debe_compactar socket q s =
      if socket == q.socket
      then done (record { viva = false; estado = s })
      else (if q.is_active
          then test_connection red q.socket s
          else done (record { viva = false; estado = s }))

  -- list_filter from index i on, with the instances that are left.
  unfoldable pub filtrar : ℕ → ℕ → ℕ → Estado → Outcome Filtro
  unfolding debe_compactar
  filtrar zero i socket s = done (record { indices = []; estado = s })
  filtrar (suc quedan) i socket s = do
    q ← instancia_de s i
    c ← debe_compactar socket q s
    f ← filtrar quedan (suc i) socket c.estado
    done (if c.viva then record f { indices = i ∷ f.indices } else f)

  -- The negative initial value of the semaphore is refused by sem_init, which changes nothing then, so
  -- the wait is for one instance only.
  unfoldable pub esperar_compact : List ℕ → Estado → Outcome Estado
  unfolding pedir_compactar turnos_compact
  esperar_compact [] s = done s
  esperar_compact (p ∷ ps) s = do
    s' ← turnos_compact (p ∷ ps) (pedir_compactar (p ∷ ps) s)
    if s'.compact == 0 then waits else done (record s' { compact = s'.compact - 1 })

  unfoldable pub initiate_compactation : ℕ → Estado → Outcome Estado
  unfolding filtrar esperar_compact
  initiate_compactation socket s = do
    f ← filtrar (length s.instances) 0 socket s
    esperar_compact f.indices f.estado

  -- What the recv after the compaction leaves when the other side is gone: it gives 0 once, and -1
  -- when the socket is closed.
  unfoldable pub sin_respuesta : ℕ → Estado → Outcome Estado
  sin_respuesta socket s =
      if any_satisfy (λ c. c == socket) s.cerrados then done s else disconnect_socket socket true s

  -- The headers that the instance sends after this one are listed. If none comes the header stays,
  -- and is processed again.
  unfoldable pub process_message_header : ℕ → Header → ℕ → List Header → Estado → Outcome Estado
  unfolding process_flag sin_respuesta
  process_message_header zero h socket rs s = spent
  process_message_header (suc fuel) h socket rs s = elim (h.id == 11) [
    | false ↦ done (process_flag h.id s)
    | true ↦ do
      s1 ← initiate_compactation socket s
      elim rs [
        | [] ↦ do s2 ← sin_respuesta socket s1; process_message_header fuel h socket [] s2
        | r ∷ rs' ↦ process_message_header fuel r socket rs' s1
      ]
  ]
