-- ===== src/Coordinador/Operaciones.antt =====
-- The operations of the ESIs: operation_get, operation_set and operation_store.
-- Each is cut at its waits: a function gives what the thread does from one wait to the next.
use tp_re_distinto_so.Base.{
  decimal, ℕ, ◌+◌, ◌-◌, List, [], ◌++◌, Text, codes, c_string, take, drop, Outcome, done, fault,
  waits, ◌>>=◌, if◌then◌else◌, ◌==◌, ltb, length, Sorting,
}
use tp_re_distinto_so.Coordinador.Estado.{
  Operation, get, set, store, Header, Estado, Red, send_header,
}
use tp_re_distinto_so.Coordinador.Claves.{Dictionary, Guardado, save_on_instance}
use tp_re_distinto_so.Coordinador.Asignar.{assign_instance}
use tp_re_distinto_so.Coordinador.Mensajes.{abort_esi}

-- Where the thread of an ESI stands: it waits for a message, for the scheduler, or for an instance, or
-- its ESI was aborted.
pub data Fase : Type 0 where
  desocupado : Fase
  espera_scheduler : Operation → Fase
  espera_instance : Operation → Fase
  abortado : Fase

-- The locals of host_esi.
pub record Hilo : Type 0 where
  pub socket : ℕ
  pub name : Text
  pub blocked_keys : List Text
  pub fase : Fase

-- A thread with the shared state.
pub record Punto : Type 0 where
  pub hilo : Hilo
  pub estado : Estado

-- sprintf(name, "ESI0%d", num_esi), or without the 0.
unfoldable pub nombre_de : ℕ → Text
unfolding decimal
nombre_de n = if ltb n 10 then codes "ESI0" ++ decimal n n else codes "ESI" ++ decimal n n

-- What host_esi does before its loop. The name goes to a buffer of 7 bytes.
unfoldable pub host_esi : ℕ → Estado → Outcome Punto
host_esi socket s =
    let name = nombre_de (s.num_esi + 1) in
    if ltb (length name) 7
    then done (record {
      hilo = record { socket = socket; name = name; blocked_keys = []; fase = desocupado };
      estado = record s { num_esi = s.num_esi + 1 };
    })
    else fault

-- The key of a message.
unfoldable pub texto_de : Header → List ℕ → Text
texto_de h carga = c_string (take h.len carga)

-- The key and the value of a SET. Of a value that is longer than the storage no more is received.
unfoldable pub valor_de : ℕ → Header → List ℕ → Text
valor_de max h carga = c_string (take (if ltb max h.len2 then max else h.len2) (drop h.len carga))

-- What is left in the socket, where the next header is read.
unfoldable pub resto_de : ℕ → Header → List ℕ → List ℕ
resto_de max h carga =
    if h.id == 22
    then drop (h.len + (if ltb max h.len2 then max else h.len2)) carga
    else drop h.len carga

-- sem_wait(&scheduler_response) and sem_wait(&result_instance)
unfoldable pub wait_response : Estado → Outcome Estado
wait_response s =
    if s.scheduler_response == 0
    then waits
    else done (record s { scheduler_response = s.scheduler_response - 1 })

unfoldable pub wait_result : Estado → Outcome Estado
wait_result s =
    if s.result_instance == 0
    then waits
    else done (record s { result_instance = s.result_instance - 1 })

-- operation = op; sem_post(&esi_operation);
unfoldable pub pedir : Operation → Hilo → Estado → Punto
pedir op t s = record {
  hilo = record t { fase = espera_scheduler op };
  estado = record s { operation = op; esi_operation = s.esi_operation + 1 };
}

unfoldable pub abortar : ℕ → Hilo → Estado → Punto
unfolding abort_esi
abortar stage t s = record {
  hilo = record t { fase = abortado };
  estado = abort_esi t.socket stage s;
}

-- The ESI is answered, and the thread waits for its next message.
unfoldable pub contestar : ℕ → Hilo → Estado → Punto
unfolding send_header
contestar id t s = record {
  hilo = record t { fase = desocupado };
  estado = send_header t.socket id s;
}

unfoldable pub esperar_instance : Operation → Hilo → Estado → Punto
esperar_instance op t s = record { hilo = record t { fase = espera_instance op }; estado = s }

-- operation_get up to the wait for the scheduler.
unfoldable pub empezar_get : Header → List ℕ → Hilo → Estado → Punto
unfolding texto_de pedir
empezar_get h carga t s = pedir get t (record s { key = texto_de h carga })

module _ (dic : Dictionary) where
  -- A key that this ESI did not ask for before aborts it.
  unfoldable pub pedir_propia : Operation → Hilo → Estado → Punto
  unfolding pedir abortar
  pedir_propia op t s = if dic.has_key t.blocked_keys s.key then pedir op t s else abortar 1 t s

  unfoldable pub empezar_set : Header → List ℕ → Hilo → Estado → Punto
  unfolding texto_de valor_de pedir_propia
  empezar_set h carga t s =
      pedir_propia set t
        (record s { key = texto_de h carga; value = valor_de s.max_storage_size h carga })

  unfoldable pub empezar_store : Header → List ℕ → Hilo → Estado → Punto
  unfolding texto_de pedir_propia
  empezar_store h carga t s = pedir_propia store t (record s { key = texto_de h carga })

  -- process_message_header_esi; another id does nothing.
  unfoldable pub process_message_header_esi : Header → List ℕ → Hilo → Estado → Punto
  unfolding empezar_get empezar_set empezar_store abortar
  process_message_header_esi h carga t s =
      if h.id == 21
      then empezar_get h carga t s
      else (if h.id == 22
          then empezar_set h carga t s
          else (if h.id == 23
              then empezar_store h carga t s
              else (if h.id == 25 then abortar 1 t s else record { hilo = t; estado = s })))

  -- From the wait for the instance to the end: the dictionary of the ESI, and the answer. The result is
  -- the global variable; operation_store has one of its own, which save_on_instance sets.
  unfoldable pub terminar_get : Hilo → Estado → Punto
  unfolding contestar
  terminar_get t s = contestar 23 (record t { blocked_keys = dic.put t.blocked_keys s.key }) s

  unfoldable pub terminar_set : Hilo → Estado → Punto
  unfolding contestar abortar
  terminar_set t s = if s.result then contestar 23 t s else abortar 2 t s

  unfoldable pub terminar_store : Hilo → Estado → Punto
  unfolding contestar
  terminar_store t s = contestar 23 (record t { blocked_keys = dic.remove t.blocked_keys s.key }) s

  unfoldable pub terminar_de : Operation → Hilo → Estado → Punto
  unfolding terminar_get terminar_set terminar_store
  terminar_de Operation.get t s = terminar_get t s
  terminar_de Operation.set t s = terminar_set t s
  terminar_de Operation.store t s = terminar_store t s
  terminar_de Operation.status t s = record { hilo = t; estado = s }
  terminar_de Operation.abort t s = record { hilo = t; estado = s }
  terminar_de Operation.compact t s = record { hilo = t; estado = s }

  module _ (red : Red) where
    -- From the wait for the scheduler on: SET and STORE.
    unfoldable pub tras_guardar : Operation → Hilo → Guardado → Punto
    unfolding esperar_instance abortar
    tras_guardar op t g = if g.ok then esperar_instance op t g.estado else abortar 2 t g.estado

    unfoldable pub seguir_store : Hilo → Estado → Outcome Punto
    unfolding tras_guardar abortar
    seguir_store t s =
        if s.key_is_not_blocked
        then (do g ← save_on_instance red dic s; done (tras_guardar store t g))
        else done (abortar 2 t s)

    -- The result of operation_set is the global variable.
    unfoldable pub seguir_set : Hilo → Estado → Outcome Punto
    unfolding tras_guardar abortar
    seguir_set t s =
        if s.key_is_not_blocked
        then (do
          g ← save_on_instance red dic s
          done (tras_guardar set t (record g { estado = record g.estado { result = g.ok } })))
        else done (abortar 2 t s)

    module _ (sorting : Sorting) (fuel : ℕ) where
      unfoldable pub seguir_get : Hilo → Estado → Outcome Punto
      unfolding contestar esperar_instance
      seguir_get t s =
          if s.key_is_not_blocked
          then (do s' ← assign_instance sorting red dic fuel s; done (esperar_instance get t s'))
          else done (contestar 22 t s)

      unfoldable pub seguir_de : Operation → Hilo → Estado → Outcome Punto
      unfolding seguir_get seguir_set seguir_store
      seguir_de Operation.get t s = seguir_get t s
      seguir_de Operation.set t s = seguir_set t s
      seguir_de Operation.store t s = seguir_store t s
      seguir_de Operation.status t s = done (record { hilo = t; estado = s })
      seguir_de Operation.abort t s = done (record { hilo = t; estado = s })
      seguir_de Operation.compact t s = done (record { hilo = t; estado = s })

      -- A turn of the thread of an ESI after its first part.
      unfoldable pub turno_esi : Hilo → Estado → Outcome Punto
      turno_esi t s = elim t.fase [
        | desocupado ↦ waits
        | abortado ↦ waits
        | espera_scheduler op ↦ (wait_response s >>= λ s'. seguir_de op t s')
        | espera_instance op ↦ do s' ← wait_result s; done (terminar_de op t s')
      ]
