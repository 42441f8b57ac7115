-- ===== src/Coordinador/Asignar.antt =====
-- assign_instance: the instance that gets a key, with choose_instance and simulate_assignment.
pub mod Conserva
pub mod Guarda
pub mod Vueltas
use tp_re_distinto_so.Base.{
  ℕ, zero, suc, ◌+◌, ◌-◌, Bool, true, false, List, [], ◌∷◌, Option, none, some, Outcome, done,
  fault, waits, spent, ◌>>=◌, if◌then◌else◌, ◌==◌, find_index, update_at, Sorting,
}
use tp_re_distinto_so.Coordinador.Estado.{
  Algorithm, el, lsu, ke, Instance, Estado, Red, instancia_de, post_start,
}
use tp_re_distinto_so.Coordinador.Letras.{mayuscula, primera_letra, has_letter}
use tp_re_distinto_so.Coordinador.Turno.{choose_by_counter}
use tp_re_distinto_so.Coordinador.Espacio.{choose_by_space}
use tp_re_distinto_so.Coordinador.Claves.{Dictionary, test_connection, find_by_key}

-- The chosen instance, which KE may not find, and the state with the pointer of the next turn.
pub record Opcion : Type 0 where
  pub indice : Option ℕ
  pub estado : Estado

-- The instance that is chosen at the end, and the state.
pub record Destino : Type 0 where
  pub indice : ℕ
  pub estado : Estado

-- The dictionary of the instance p gets the key of the message.
unfoldable pub poner_clave : Dictionary → ℕ → Estado → Estado
poner_clave dic p s = record s {
  instances = update_at p (λ q. record q { keys = dic.put q.keys s.key }) s.instances;
}

module _ (sorting : Sorting) where
  unfoldable pub elegir_por : Algorithm → Bool → Estado → Outcome Opcion
  elegir_por el simulate s = do
    e ← choose_by_counter simulate s.instances s.instance_pointer
    done (record {
      indice = some e.elegida;
      estado = record s { instance_pointer = e.instance_pointer };
    })
  elegir_por lsu simulate s = do
    e ← choose_by_space sorting simulate s.instances s.instance_pointer
    done (record {
      indice = some e.elegida;
      estado = record s { instance_pointer = e.instance_pointer };
    })
  elegir_por ke simulate s = done (record {
    indice = find_index (has_letter (mayuscula (primera_letra s.key))) s.instances;
    estado = s;
  })

  unfoldable pub choose_instance : Bool → Estado → Outcome Opcion
  choose_instance simulate s = elegir_por s.algorithm simulate s

  unfoldable pub simulate_assignment : Estado → Outcome Opcion
  simulate_assignment s = choose_instance true s

  module _ (red : Red) where
    -- while(1): until the connection of the chosen instance is up.
    unfoldable pub reintentar : ℕ → Option ℕ → Estado → Outcome Destino
    reintentar zero i s = spent
    reintentar (suc fuel) i s = elim i [
      | none ↦ fault
      | some p ↦ do
        q ← instancia_de s p
        c ← test_connection red q.socket s
        elim c.viva [
          | true ↦ done (record { indice = p; estado = c.estado })
          | false ↦ do e ← choose_instance false c.estado; reintentar fuel e.indice e.estado
        ]
    ]

    module _ (dic : Dictionary) where
      -- From `sem_wait(&one_instance)` on.
      unfoldable pub asignar_nueva : ℕ → Estado → Outcome Estado
      asignar_nueva fuel s = if s.one_instance == 0 then waits else (do
        e ← choose_instance false (record s { one_instance = s.one_instance - 1 })
        d ← reintentar fuel e.indice e.estado
        let s' = poner_clave dic d.indice d.estado
        done (post_start d.indice (record s' { one_instance = s'.one_instance + 1 })))

      -- An instance that has the key already, and is there, works on.
      unfoldable pub asignar_vieja : ℕ → ℕ → Estado → Outcome Estado
      asignar_vieja fuel p s = do
        q ← instancia_de s p
        if q.is_active
            then (do
              c ← test_connection red q.socket s
              if c.viva then done (post_start p c.estado) else asignar_nueva fuel c.estado)
            else asignar_nueva fuel s

      unfoldable pub assign_instance : ℕ → Estado → Outcome Estado
      assign_instance fuel s = elim (find_by_key dic s.instances s.key) [
        | none ↦ asignar_nueva fuel s
        | some p ↦ asignar_vieja fuel p s
      ]
