-- ===== src/Planificador/Ciclo.antt =====
-- The main loop, wait_question, wait_start and what HostConnections does with a message.
use tp_re_distinto_so.Base.{
  decimal, Sorting, ℕ, ◌+◌, ◌-◌, true, false, List, [], ◌∷◌, ◌++◌, none, some, Text, codes,
  c_string, Commons, Outcome, done, fault, exits, waits, ◌>>=◌, if◌then◌else◌, ◌==◌, ltb, leb, take,
  length,
}
use tp_re_distinto_so.Planificador.Estado.{Floats, Esi, Estado, load, load_un_esi, send_header}
use tp_re_distinto_so.Planificador.Estimacion.{sort_list_by_algorithm, update_values}
use tp_re_distinto_so.Planificador.Claves.{esi_has_key, check_key}
use tp_re_distinto_so.Planificador.Desbloqueo.{add_ready, finish_esi, unlock_key}

-- sprintf(name, "ESI%02d", n)
unfoldable pub nombre_esi : ℕ → Text
unfolding decimal
nombre_esi n = codes "ESI" ++ (if ltb n 10 then b'0' ∷ (48 + n) ∷ [] else decimal n n)

module _ {F : Type 0} where
  -- Any header starts the scheduler: the test of its id is an assignment.
  unfoldable pub wait_start : ℕ → Estado F → Estado F
  wait_start id s = s

  -- The two messages that begin a round of the main loop.
  unfoldable pub pedir_sentencia : Estado F → Outcome (Estado F)
  pedir_sentencia s = elim s.un_esi [
    | none ↦ exits
    | some p ↦ do
      let s1 = send_header s s.socket_c 99
      un_esi ← load s1 p
      done (send_header s1 un_esi.socket 21)
  ]

module _ {F : Type 0} (fl : Floats F) where
  -- A new ESI. Its name goes to a buffer of 7 bytes.
  unfoldable pub nuevo_esi : ℕ → Estado F → Outcome (Estado F)
  nuevo_esi sd s = do
    let n = s.num_esi + 1
    let nuevo : Esi F = record {
      socket = sd;
      name = nombre_esi n;
      instructions_counter = 0;
      cpu_time_estimated = fl.of_int s.initial_estimation;
      cpu_time_previous = fl.of_int s.initial_estimation;
      waiting_time = fl.of_int 0;
    }
    if ltb (length (nombre_esi n)) 7
        then done (record (add_ready (length s.esis) s) {
          num_esi = n;
          esis = s.esis ++ nuevo ∷ [];
          hay_esis = s.hay_esis + 1;
        })
        else fault

  -- What HostConnections does with a header that comes from an ESI.
  unfoldable pub atender : ℕ → ℕ → Estado F → Outcome (Estado F)
  atender id sd s =
      if id == 20
      then nuevo_esi sd s
      else (if id == 22
          then done (record s { respuesta_ok = true })
          else (if id == 23
              then done (record s { respuesta_ok = false })
              else (if id == 24
                  then done (record s { fin_de_esi = true; respuesta_ok = true; abort_esi = false })
                  else (if id == 25
                      then done
                          (record s { fin_de_esi = true; respuesta_ok = true; abort_esi = true })
                      else done s))))

  module _ (commons : Commons) (sorting : Sorting) where
    -- The text that follows a header in the buffer `mensaje`, which has room for 40 bytes.
    unfoldable pub recibir_mensaje : ℕ → List ℕ → Outcome Text
    recibir_mensaje len carga = if leb len 40 then done (c_string (take len carga)) else fault

    unfoldable pub wait_question : ℕ → ℕ → List ℕ → Estado F → Outcome (Estado F)
    wait_question id len carga s =
        if id == 31
        then (recibir_mensaje len carga >>= λ mensaje. check_key commons mensaje s)
        else (if id == 32
            then (recibir_mensaje len carga >>= λ mensaje. unlock_key fl commons sorting mensaje s)
            else (if id == 33
                then (do
                  un_esi ← load_un_esi s
                  let mensaje = c_string (take len carga)
                  if esi_has_key commons s.claves_bloqueadas_por_esis un_esi.name mensaje
                      then done (send_header s s.socket_c 34)
                      else done (send_header s s.socket_c 35))
                else (if id == 34
                    then done (record s { abort_esi = true })
                    else (if id == 35 then done s else exits))))

    -- `finish_esi(un_esi)`
    unfoldable pub finish_un_esi : Estado F → Outcome (Estado F)
    finish_un_esi s = elim s.un_esi [ none ↦ fault | some p ↦ finish_esi fl commons p s ]

    -- From the answer of the ESI to the wait for another one.
    unfoldable pub cerrar_ronda : Estado F → Outcome (Estado F)
    cerrar_ronda s = do
      s1 ← update_values fl s
      s2 ←
          if s1.respuesta_ok
          then done s1
          else (if s1.abort_esi then finish_un_esi s1 else done (record s1 { fin_de_esi = true }))
      if s2.fin_de_esi then finish_un_esi s2 else done s2

    -- From `sem_wait(&hay_esis)` to the end of the round, where another ESI is chosen.
    unfoldable pub elegir_esi : Estado F → Outcome (Estado F)
    elegir_esi s = if s.hay_esis == 0 then waits else (do
      s1 ← sort_list_by_algorithm fl sorting (record s { hay_esis = s.hay_esis - 1 })
      elim s1.lista_ready [
        | [] ↦ fault
        | p ∷ ps ↦ done (record s1 { un_esi = some p; lista_ready = ps; fin_de_esi = false })
      ])

    -- Before the loop the front of lista_ready is taken as it is.
    unfoldable pub primer_esi : ℕ → Estado F → Outcome (Estado F)
    primer_esi id s = if s.hay_esis == 0 then waits else elim s.lista_ready [
      | [] ↦ fault
      | p ∷ ps ↦ done (record (wait_start id s) {
        hay_esis = s.hay_esis - 1;
        un_esi = some p;
        lista_ready = ps;
      })
    ]
