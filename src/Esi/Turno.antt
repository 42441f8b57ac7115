-- ===== src/Esi/Turno.antt =====
-- send_parsed_operation, and a round of the loop of main.
pub mod Guion
pub mod Informe
use tp_re_distinto_so.Base.{
  ℕ, Bool, true, false, List, [], ◌∷◌, Option, none, some, Text, if◌then◌else◌, ◌==◌,
}
use tp_re_distinto_so.Esi.Estado.{
  Operacion, no_valida, otra, get, store, set, Header, Lado, scheduler, coordinator, Estado, Salida,
  seguir, salir, Respuesta, falla, desconectado, llega, luego, saltar_blancos, send_message,
  avisar_y_salir, abandonar, parse_line,
}

-- What recv gives for the header of the scheduler and for that of the coordinator in a round.
pub record Ronda : Type 0 where
  pub aviso : Header
  pub respuesta : Respuesta

module _ (anda : Lado → Bool) where
  -- The answer 23: the script ends, or goes on at the next character that is not blank.
  unfoldable pub operacion_hecha : List ℕ → Estado → Salida
  unfolding send_message
  operacion_hecha [] s =
      luego (send_message anda scheduler 24 [] [] (record s { script = [] })) (λ t. salir true t)
  operacion_hecha (c ∷ cs) s =
      send_message anda scheduler 22 [] [] (record s { script = c ∷ cs; flag_blocked = false })

  -- switch (buffer->id)
  unfoldable pub contestada : ℕ → Estado → Salida
  unfolding operacion_hecha send_message avisar_y_salir
  contestada id s =
      if id == 23
      then operacion_hecha (saltar_blancos s.script) s
      else (if id == 22
          then send_message anda scheduler 23 [] [] (record s { flag_blocked = true })
          else avisar_y_salir anda 25 s)

  -- switch (result)
  unfoldable pub recibir : Respuesta → Estado → Salida
  unfolding contestada avisar_y_salir
  recibir falla s = avisar_y_salir anda 24 s
  recibir desconectado s = avisar_y_salir anda 24 s
  recibir (llega h) s = contestada h.id s

  -- switch (parsed.keyword)
  unfoldable pub enviar_por : Operacion → Respuesta → Estado → Salida
  unfolding send_message recibir avisar_y_salir abandonar
  enviar_por no_valida r s = abandonar anda s
  enviar_por otra r s = avisar_y_salir anda 24 s
  enviar_por (get clave) r s = luego (send_message anda coordinator 21 clave [] s) (recibir r)
  enviar_por (set clave valor) r s =
      luego (send_message anda coordinator 22 clave valor s) (recibir r)
  enviar_por (store clave) r s = luego (send_message anda coordinator 23 clave [] s) (recibir r)

  unfoldable pub send_parsed_operation : Respuesta → Estado → Salida
  unfolding enviar_por
  send_parsed_operation r s = enviar_por s.parsed r s

  module _ (parse : List ℕ → Operacion) where
    -- A round of while(1). A message of the scheduler that is not 21 ends the process.
    unfoldable pub turno : Ronda → Estado → Salida
    unfolding send_parsed_operation parse_line avisar_y_salir
    turno r s =
        if r.aviso.id == 21
        then luego (if s.flag_blocked then seguir s else parse_line anda parse s)
            (send_parsed_operation r.respuesta)
        else avisar_y_salir anda 24 s

    -- The rounds of the loop, one for each message of the scheduler.
    unfoldable pub main_loop : List Ronda → Estado → Salida
    unfolding turno
    main_loop [] s = seguir s
    main_loop (r ∷ rs) s = luego (turno r s) (main_loop rs)
