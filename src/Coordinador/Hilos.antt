-- ===== src/Coordinador/Hilos.antt =====
-- A turn of host_instance and of host_scheduler: from the wait at a semaphore to the next wait.
use tp_re_distinto_so.Base.{
  ℕ, ◌+◌, ◌-◌, true, false, List, [], ◌∷◌, ◌++◌, Option, none, some, Text, c_string, take, Outcome,
  done, waits, exits, ◌>>=◌, if◌then◌else◌, ◌==◌, length,
}
use tp_re_distinto_so.Coordinador.Estado.{
  Operation, Header, header, bytes, Estado, Red, enviar, send_header,
}
use tp_re_distinto_so.Coordinador.Claves.{disconnect_socket}
use tp_re_distinto_so.Coordinador.Mensajes.{
  update_instance, process_message_header, wait_start, caso_compact,
}

-- sem_post(&result_instance)
unfoldable pub post_result : Estado → Estado
post_result s = record s { result_instance = s.result_instance + 1 }

-- send of a header with the lengths of the key and of what follows it, then of the bytes.
unfoldable pub mandar : ℕ → ℕ → ℕ → ℕ → List ℕ → Estado → Estado
unfolding enviar
mandar socket id len len2 carga s =
    enviar (bytes socket carga)
      (enviar (header socket (record { id = id; len = len; len2 = len2 })) s)

-- The cases GET and STORE: the key with its NUL, of which the header does not count the NUL.
unfoldable pub caso_get : ℕ → Estado → Estado
unfolding mandar post_result
caso_get socket s = post_result (mandar socket 13 (length s.key) 0 (s.key ++ 0 ∷ []) s)

unfoldable pub caso_store : ℕ → Estado → Estado
unfolding mandar post_result
caso_store socket s = post_result (mandar socket 14 (length s.key) 0 (s.key ++ 0 ∷ []) s)

-- What goes to the instance in a SET: the key and the value, each with its NUL.
unfoldable pub cabecera_set : Text → Text → Header
cabecera_set key value = record { id = 12; len = length key + 1; len2 = length value + 1 }

unfoldable pub carga_set : Text → Text → List ℕ
carga_set key value = (key ++ 0 ∷ []) ++ (value ++ 0 ∷ [])

-- The case STATUS. The bytes that come are stored as the key, not as the value.
unfoldable pub caso_status : ℕ → Header → List ℕ → Estado → Estado
unfolding mandar post_result
caso_status socket r carga s =
    let s1 = mandar socket 15 (length s.key) 0 (s.key ++ 0 ∷ []) s in
    post_result (
      if r.id == 13
      then record s1 { key = c_string (take r.len carga); has_value = true }
      else record s1 { has_value = false })

-- The header that the buffer holds in the end: each with the id 11 is followed by another one.
unfoldable pub ultima : Header → List Header → Header
ultima r [] = r
ultima r (r' ∷ rs) = if r.id == 11 then ultima r' rs else r

module _ (red : Red) (fuel : ℕ) where
  -- The case SET, with the headers that come from the instance. When none comes the socket is closed,
  -- and the header is the one that was sent.
  unfoldable pub caso_set : ℕ → ℕ → List Header → Estado → Outcome Estado
  unfolding cabecera_set carga_set mandar post_result ultima
  caso_set p socket rs s = do
    let h = cabecera_set s.key s.value
    let s1 = mandar socket h.id h.len h.len2 (carga_set s.key s.value) s
    elim rs [
      | [] ↦ do
        s2 ← disconnect_socket socket true s1
        s3 ← process_message_header red fuel h socket [] s2
        done (post_result (update_instance s3.algorithm p h s3))
      | r ∷ rs' ↦ do
        s2 ← process_message_header red fuel r socket rs' s1
        done (post_result (update_instance s2.algorithm p (ultima r rs') s2))
    ]

  -- The switch of host_instance; `previo` is what the buffer of the thread held before.
  unfoldable pub caso_de :
      Operation → ℕ → ℕ → Header → List Header → List ℕ → Estado → Outcome Estado
  unfolding caso_get caso_store caso_status caso_compact
  caso_de Operation.get p socket previo rs carga s = done (caso_get socket s)
  caso_de Operation.set p socket previo rs carga s = caso_set p socket rs s
  caso_de Operation.store p socket previo rs carga s = done (caso_store socket s)
  caso_de Operation.status p socket previo [] carga s = done (caso_status socket previo carga s)
  caso_de Operation.status p socket previo (r ∷ rs) carga s = done (caso_status socket r carga s)
  caso_de Operation.abort p socket previo rs carga s = done s
  caso_de Operation.compact p socket previo rs carga s = done (caso_compact socket s)

  unfoldable pub turno_instance : ℕ → ℕ → Header → List Header → List ℕ → Estado → Outcome Estado
  turno_instance p socket previo rs carga s = do
    s' ← wait_start p s
    caso_de s'.operation p socket previo rs carga s'

  -- The question of host_scheduler for an operation, and what its answer sets. Without an answer the
  -- process ends.
  unfoldable pub preguntar : ℕ → ℕ → Option Header → Estado → Outcome Estado
  unfolding mandar
  preguntar socket id respuesta s = elim respuesta [
    | none ↦ exits
    | some r ↦ do
      s' ← process_message_header red fuel r socket [] (mandar socket id (length s.key) 0 s.key s)
      done (record s' { scheduler_response = s'.scheduler_response + 1 })
  ]

  -- The switch of host_scheduler.
  unfoldable pub consulta_de : Operation → ℕ → Option Header → Estado → Outcome Estado
  unfolding send_header
  consulta_de Operation.get socket r s = preguntar socket 31 r s
  consulta_de Operation.store socket r s = preguntar socket 32 r s
  consulta_de Operation.set socket r s = preguntar socket 33 r s
  consulta_de Operation.abort socket r s = done (send_header socket 34 s)
  consulta_de Operation.status socket r s = done s
  consulta_de Operation.compact socket r s = done s

  -- After a header that does not ask for STATUS.
  unfoldable pub turno_scheduler : ℕ → Option Header → Estado → Outcome Estado
  turno_scheduler socket r s =
      if s.esi_operation == 0
      then waits
      else consulta_de s.operation socket r (record s { esi_operation = s.esi_operation - 1 })
