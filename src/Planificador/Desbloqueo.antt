-- ===== src/Planificador/Desbloqueo.antt =====
-- unlock_key, unlock_esi, release_keys_and_unlock_esis, finish_esi and send_esi_to_ready.
pub mod Vuelta
pub mod Liberacion
pub mod Termino
pub mod Suelta
use tp_re_distinto_so.Base.{
  Sorting, ℕ, zero, suc, ◌+◌, Bool, true, false, List, [], ◌∷◌, ◌++◌, Option, none, some, Text,
  Commons, Outcome, done, fault, spent, ◌>>=◌, if◌then◌else◌, find_first, remove_first,
  update_first, length,
}
use tp_re_distinto_so.Planificador.Estado.{
  Algorithm, sjfsd, sjfcd, hrrn, Floats, Esi, ClaveBloqueada, ClavePorEsi, Estado, load,
  load_un_esi, store, send_header,
}
use tp_re_distinto_so.Planificador.Estimacion.{calculate_estimation, sort_list_by_algorithm}
use tp_re_distinto_so.Planificador.Claves.{tiene_key, find_by_key, esi_has_key, release_key}

-- queue_pop on the queue of the key that find_by_key gives.
unfoldable pub desencolar : Commons → Text → List ClaveBloqueada → List ClaveBloqueada
unfolding tiene_key
desencolar commons key lista =
    update_first (tiene_key commons key)
      (λ k. record k {
        cola_esis_bloqueados = elim k.cola_esis_bloqueados [ [] ↦ [] | p ∷ ps ↦ ps ];
      })
      lista

module _ {F : Type 0} where
  -- list_add(lista_ready, p)
  unfoldable pub add_ready : ℕ → Estado F → Estado F
  add_ready p s = record s { lista_ready = s.lista_ready ++ p ∷ [] }

  unfoldable pub a_ready : ℕ → Estado F → Outcome (Estado F)
  unfolding add_ready
  a_ready p s = done (add_ready p s)

module _ {F : Type 0} (fl : Floats F) where
  -- The ESI that is freed runs if its estimation is shorter than that of the running one.
  unfoldable pub desalojar : ℕ → Estado F → Outcome (Estado F)
  unfolding add_ready
  desalojar p s = elim s.un_esi [
    | none ↦ fault
    | some u ↦ do
      otro ← load s p
      un ← load s u
      if fl.lt otro.cpu_time_estimated un.cpu_time_estimated
          then done (record (add_ready u s) { un_esi = some p })
          else done (add_ready p s)
  ]

  -- The ESI that is freed waits anew.
  unfoldable pub sin_espera : ℕ → Estado F → Outcome (Estado F)
  unfolding add_ready
  sin_espera p s = do
    otro ← load s p
    done (add_ready p (store s p (record otro { waiting_time = fl.of_int 0 })))

  -- The switch of unlock_key, after the estimation that all its cases begin with.
  unfoldable pub reincorporar_por : Algorithm → ℕ → Estado F → Outcome (Estado F)
  reincorporar_por sjfsd p s = a_ready p s
  reincorporar_por sjfcd p s = desalojar p s
  reincorporar_por hrrn p s = sin_espera p s

  unfoldable pub reincorporar : ℕ → Estado F → Outcome (Estado F)
  reincorporar p s = do s' ← calculate_estimation fl p s; reincorporar_por s'.algorithm p s'

  -- The switch of unlock_esi: no ESI is displaced.
  unfoldable pub liberar_por : Algorithm → ℕ → Estado F → Outcome (Estado F)
  liberar_por sjfsd p s = a_ready p s
  liberar_por sjfcd p s = a_ready p s
  liberar_por hrrn p s = sin_espera p s

  module _ (commons : Commons) where
    unfoldable pub unlock_esi : Text → Estado F → Outcome (Estado F)
    unlock_esi key s = elim (find_by_key commons s.lista_bloqueados key) [
      | none ↦ fault
      | some a_key ↦ elim a_key.cola_esis_bloqueados [
        | [] ↦ done s
        | p ∷ ps ↦ do
          s' ←
              calculate_estimation fl p
                (record s { lista_bloqueados = desencolar commons key s.lista_bloqueados })
          liberar_por s'.algorithm p s'
      ]
    ]

    unfoldable pub is_of_esi : Text → ClavePorEsi → Bool
    is_of_esi name p = commons.equals_ignore_case p.esi_id name

    -- The loop of release_keys_and_unlock_esis; each round takes one key away.
    unfoldable pub release_keys : ℕ → Text → Estado F → Outcome (Estado F)
    unfolding is_of_esi
    release_keys zero name s = spent
    release_keys (suc fuel) name s =
        let seguir = λ (s' : Estado F). release_keys fuel name s' in
        elim (find_first (is_of_esi name) s.claves_bloqueadas_por_esis) [
          | none ↦ done s
          | some i ↦
              unlock_esi i.key (record s {
                claves_bloqueadas_por_esis =
                    remove_first (is_of_esi name) s.claves_bloqueadas_por_esis;
              })
              >>= seguir
        ]

    -- One round more than there are keys.
    unfoldable pub release_keys_and_unlock_esis : ℕ → Estado F → Outcome (Estado F)
    release_keys_and_unlock_esis p s = do
      esi ← load s p
      release_keys (suc (length s.claves_bloqueadas_por_esis)) esi.name s

    unfoldable pub finish_esi : ℕ → Estado F → Outcome (Estado F)
    finish_esi p s = if s.block then done s else (do
      let s1 : Estado F = record s { finished_esis = s.finished_esis ++ p ∷ [] }
      s2 ← if s1.abort_esi then done s1 else release_keys_and_unlock_esis p s1
      done (record s2 { abort_esi = false }))

    module _ (sorting : Sorting) where
      -- The queue of the key gives its front, which is put in order with the others.
      unfoldable pub despertar : Text → Estado F → Outcome (Estado F)
      despertar key s = elim (find_by_key commons s.lista_bloqueados key) [
        | none ↦ fault
        | some a_key ↦ elim a_key.cola_esis_bloqueados [
          | [] ↦ done s
          | p ∷ ps ↦ do
            s' ←
                reincorporar p
                  (record s { lista_bloqueados = desencolar commons key s.lista_bloqueados })
            t ← sort_list_by_algorithm fl sorting s'
            done (record t { hay_esis = t.hay_esis + 1 })
        ]
      ]

      unfoldable pub unlock_key : Text → Estado F → Outcome (Estado F)
      unlock_key key s = do
        un_esi ← load_un_esi s
        if esi_has_key commons s.claves_bloqueadas_por_esis un_esi.name key
            then despertar key (
                send_header
                  (record s {
                    claves_bloqueadas_por_esis =
                        release_key commons s.claves_bloqueadas_por_esis un_esi.name key;
                  })
                  s.socket_c 34)
            else done (send_header s s.socket_c 35)

      unfoldable pub send_esi_to_ready : ℕ → Estado F → Outcome (Estado F)
      send_esi_to_ready p s = sort_list_by_algorithm fl sorting (add_ready p s)
