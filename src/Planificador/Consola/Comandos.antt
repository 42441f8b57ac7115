-- ===== src/Planificador/Consola/Comandos.antt =====
-- Consola.c: get_key_status, and the loop of Console.
pub mod Palabras
use tp_re_distinto_so.Base.{
  ℕ, ◌+◌, Bool, true, false, List, [], ◌∷◌, ◌++◌, Option, none, some, Text, c_string, take, drop,
  map, not, Commons, Outcome, done, waits, ◌>>=◌, if◌then◌else◌, ◌==◌,
}
use tp_re_distinto_so.Planificador.Estado.{Floats, Estado, send_header}
use tp_re_distinto_so.Planificador.Claves.{find_by_key}
use tp_re_distinto_so.Planificador.Consola.{
  Commands, console_read_arg, null_argument, to_enum, block_key_by_console, list_blocked_esis,
  unlock_key_by_console,
}

-- content_header, with the bytes that follow it: what the coordinator answers.
pub record Respuesta : Type 0 where
  pub id : ℕ
  pub len : ℕ
  pub len2 : ℕ
  pub payload : List ℕ

-- What is printed; of a list of blocked ESIs only their names.
pub data Impreso : Type 0 where
  ayuda invalido no_existe : Impreso
  nombre simulada sin_valor : Text → Impreso
  con_valor : Text → Text → Impreso

-- The console: the state of the scheduler, `stop`, the flag `exit` of its loop, whether pause_mutex is
-- locked, the keys that were asked for with the header 33, and what was printed.
pub record Pantalla (F : Type 0) : Type 0 where
  pub estado : Estado F
  pub stop : Bool
  pub exit : Bool
  pub pausado : Bool
  pub preguntas : List Text
  pub impresos : List Impreso

module _ {F : Type 0} where
  unfoldable pub imprimir : List Impreso → Pantalla F → Pantalla F
  imprimir is p = record p { impresos = p.impresos ++ is }

  -- The header 33 and the key go to the coordinator.
  unfoldable pub preguntar_status : Text → Pantalla F → Pantalla F
  unfolding send_header
  preguntar_status key p = record p {
    estado = send_header p.estado p.estado.socket_c 33;
    preguntas = p.preguntas ++ key ∷ [];
  }

  -- The answer for a key that nobody asked for.
  unfoldable pub mostrar_simulada : Respuesta → Pantalla F → Pantalla F
  unfolding imprimir
  mostrar_simulada r p =
      if r.id == 36 then imprimir (simulada (c_string (take r.len r.payload)) ∷ []) p else p

  -- The answer for another key: the name of the instance, and the value if it has one.
  unfoldable pub mostrar_valor : Respuesta → Pantalla F → Pantalla F
  unfolding imprimir
  mostrar_valor r p =
      if r.id == 37
      then imprimir
          (con_valor (c_string (take r.len r.payload))
              (c_string (take r.len2 (drop r.len r.payload)))
            ∷ [])
          p
      else (if r.id == 38 then imprimir (sin_valor (c_string (take r.len r.payload)) ∷ []) p else p)

  module _ (commons : Commons) where
    unfoldable pub get_key_status : Text → Respuesta → Pantalla F → Pantalla F
    unfolding imprimir preguntar_status mostrar_simulada mostrar_valor
    get_key_status key r p = elim (find_by_key commons p.estado.lista_bloqueados key) [
      | none ↦ mostrar_simulada r (preguntar_status key (imprimir (no_existe ∷ []) p))
      | some a_key ↦ mostrar_valor r (preguntar_status key p)
    ]

    -- A command that needs pause_mutex and the state of the scheduler; pthread_mutex_lock waits while
    -- the scheduler is paused. The command says whether it unlocks the mutex.
    unfoldable pub con_mutex :
        (Estado F → Outcome (Estado F × Bool)) → Pantalla F → Outcome (Pantalla F)
    con_mutex f p =
        if p.pausado
        then waits
        else (do (s, libera) ← f p.estado; done (record p { estado = s; pausado = not libera }))

    unfoldable pub ejecutar_block : List ℕ → Pantalla F → Outcome (Pantalla F)
    unfolding con_mutex
    ejecutar_block line p =
        let (key, resto) = console_read_arg line in
        let (id, fin) = console_read_arg resto in
        if null_argument key
        then done p
        else (if null_argument id
            then done p
            else con_mutex (λ s. block_key_by_console commons key id s) p)

    unfoldable pub ejecutar_unlock : Floats F → List ℕ → Pantalla F → Outcome (Pantalla F)
    ejecutar_unlock fl line p =
        let (key, resto) = console_read_arg line in
        if null_argument key
        then done p
        else (do s ← unlock_key_by_console commons fl key p.estado; done (record p { estado = s }))

    unfoldable pub ejecutar_list : List ℕ → Pantalla F → Outcome (Pantalla F)
    unfolding imprimir
    ejecutar_list line p =
        let (key, resto) = console_read_arg line in
        if null_argument key then done p else (do
          (s, ns) ← list_blocked_esis commons key p.estado
          done (imprimir (map nombre ns) (record p { estado = s })))

    unfoldable pub ejecutar_status : List ℕ → Respuesta → Pantalla F → Outcome (Pantalla F)
    unfolding get_key_status
    ejecutar_status line r p =
        let (key, resto) = console_read_arg line in
        if null_argument key then done p else done (get_key_status key r p)

    -- switch (to_enum(command)), with the rest of the line and the answer of the coordinator to STATUS.
    unfoldable pub ejecutar :
        Floats F → Commands → List ℕ → Respuesta → Pantalla F → Outcome (Pantalla F)
    unfolding imprimir ejecutar_block ejecutar_unlock ejecutar_list ejecutar_status
    ejecutar fl Commands.exit line r p = done (record p {
      estado = record p.estado { hay_esis = p.estado.hay_esis + 1 };
      stop = true;
      exit = true;
      pausado = false;
    })
    ejecutar fl Commands.pause line r p =
        if p.pausado then waits else done (record p { pausado = true })
    ejecutar fl Commands.resume line r p = done (record p { pausado = false })
    ejecutar fl Commands.block line r p = ejecutar_block line p
    ejecutar fl Commands.unlock line r p = ejecutar_unlock fl line p
    ejecutar fl Commands.list line r p = ejecutar_list line p
    ejecutar fl Commands.kill line r p = done p
    ejecutar fl Commands.status line r p = ejecutar_status line r p
    ejecutar fl Commands.deadlock line r p = done p
    ejecutar fl Commands.help line r p = done (imprimir (ayuda ∷ []) p)
    ejecutar fl Commands.error line r p = done (imprimir (invalido ∷ []) p)

    -- A round of the loop of Console.
    unfoldable pub ejecutar_linea :
        Floats F → List ℕ → Respuesta → Pantalla F → Outcome (Pantalla F)
    unfolding ejecutar
    ejecutar_linea fl line r p =
        let (command, resto) = console_read_arg line in
        ejecutar fl (to_enum commons command) resto r p

    -- while (exit == 0), with the lines that are typed and what the coordinator answers.
    unfoldable pub console :
        Floats F → List (List ℕ × Respuesta) → Pantalla F → Outcome (Pantalla F)
    unfolding ejecutar_linea
    console fl [] p = done p
    console fl ((line, r) ∷ ls) p =
        if p.exit then done p else (ejecutar_linea fl line r p >>= λ q. console fl ls q)
