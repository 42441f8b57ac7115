-- ===== src/Coordinador/Status.antt =====
-- operation_status: the scheduler asks for the value of a key.
use tp_re_distinto_so.Base.{
  ℕ, List, ◌++◌, Option, none, some, Text, Outcome, done, fault, ◌>>=◌, if◌then◌else◌, length,
  Sorting,
}
use tp_re_distinto_so.Coordinador.Estado.{Operation, Header, Estado, Red, instancia_de, post_start}
use tp_re_distinto_so.Coordinador.Claves.{Dictionary, find_by_key, test_connection}
use tp_re_distinto_so.Coordinador.Asignar.{simulate_assignment}
use tp_re_distinto_so.Coordinador.Hilos.{mandar}
use tp_re_distinto_so.Coordinador.Operaciones.{texto_de}

-- The key of the question.
unfoldable pub operation_status_key : Header → List ℕ → Estado → Estado
unfolding texto_de
operation_status_key h carga s = record s { key = texto_de h carga }

-- What operation_status leaves at its wait: the instance that it waits for, if there is one.
pub record Estatus : Type 0 where
  pub espera : Option ℕ
  pub estado : Estado

-- The answer of operation_status with the name of an instance.
unfoldable pub contestar_nombre : ℕ → ℕ → Text → Estado → Estado
unfolding mandar
contestar_nombre socket id name s = mandar socket id (length name) 0 name s

module _ (sorting : Sorting) (red : Red) (dic : Dictionary) where
  -- Where the key should go: 36.
  unfoldable pub contestar_simulada : ℕ → Estado → Outcome Estado
  unfolding contestar_nombre
  contestar_simulada socket s = do
    e ← simulate_assignment sorting s
    elim e.indice [
      | none ↦ fault
      | some p ↦ do q ← instancia_de e.estado p; done (contestar_nombre socket 36 q.name e.estado)
    ]

  unfoldable pub operation_status : ℕ → Header → List ℕ → Estado → Outcome Estatus
  unfolding operation_status_key
  operation_status socket h carga s0 = do
    let s = operation_status_key h carga s0
    elim (find_by_key dic s.instances s.key) [
      | none ↦ do t ← contestar_simulada socket s; done (record { espera = none; estado = t })
      | some p ↦ do
        q ← instancia_de s p
        if q.is_active
            then (do
              c ← test_connection red q.socket s
              if c.viva
                  then done (record {
                    espera = some p;
                    estado = post_start p (record c.estado { operation = Operation.status });
                  })
                  else (do
                    t ← contestar_simulada socket c.estado
                    done (record { espera = none; estado = t })))
            else (do t ← contestar_simulada socket s; done (record { espera = none; estado = t }))
    ]

-- The rest of operation_status: 37 with the name and the value of `message`, or 38 with the name.
unfoldable pub terminar_status : ℕ → Text → Estado → Estado
unfolding mandar
terminar_status socket name s =
    if s.has_value
    then mandar socket 37 (length name) (length s.value) (name ++ s.value) s
    else mandar socket 38 (length name) 0 name s
