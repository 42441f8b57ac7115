-- ===== src/Planificador/Claves.antt =====
-- The keys: find_by_key, is_key_blocked, esi_has_key, release_key, check_key and new_blocked_keys.
pub mod Listas
pub mod Validez
pub mod Colas
pub mod Consulta
pub mod Soltar
use tp_re_distinto_so.Base.{
  ℕ, ◌+◌, Bool, true, false, ◌&&◌, not, List, [], ◌∷◌, ◌++◌, Option, none, some, Text, Commons,
  Outcome, done, fault, ◌>>=◌, if◌then◌else◌, find_first, remove_first, update_first, any_satisfy,
  length,
}
use tp_re_distinto_so.Planificador.Estado.{
  Floats, Esi, ClaveBloqueada, ClavePorEsi, Estado, consola, load, load_un_esi, send_header,
}

unfoldable pub is_empty : List ℕ → Bool
is_empty [] = true
is_empty (p ∷ ps) = false

module _ (commons : Commons) where
  open commons use {equals_ignore_case}

  unfoldable pub tiene_key : Text → ClaveBloqueada → Bool
  tiene_key key p = equals_ignore_case p.key key

  unfoldable pub find_by_key : List ClaveBloqueada → Text → Option ClaveBloqueada
  unfolding tiene_key
  find_by_key lista key = find_first (tiene_key key) lista

  unfoldable pub is_key_taken : Text → ClavePorEsi → Bool
  is_key_taken key p = equals_ignore_case p.key key

  unfoldable pub is_key_blocked : List ClavePorEsi → Text → Bool
  unfolding is_key_taken
  is_key_blocked claves key = any_satisfy (is_key_taken key) claves

  unfoldable pub owns_key : Text → Text → ClavePorEsi → Bool
  owns_key name key p = equals_ignore_case p.esi_id name && equals_ignore_case p.key key

  -- The function has no `return`: its value is that of the search where the caller finds the result
  -- of the last call.
  unfoldable pub esi_has_key : List ClavePorEsi → Text → Text → Bool
  unfolding owns_key
  esi_has_key claves name key = any_satisfy (owns_key name key) claves

  unfoldable pub release_key : List ClavePorEsi → Text → Text → List ClavePorEsi
  unfolding owns_key
  release_key claves name key = remove_first (owns_key name key) claves

  -- queue_push on the queue of the key that find_by_key gives.
  unfoldable pub encolar : Text → ℕ → List ClaveBloqueada → List ClaveBloqueada
  encolar key p lista =
      update_first (tiene_key key)
        (λ k. record k { cola_esis_bloqueados = k.cola_esis_bloqueados ++ p ∷ [] }) lista

  module _ {F : Type 0} where
    -- The running ESI takes the key.
    unfoldable pub reservar : Text → Text → Estado F → Estado F
    reservar name key s = record s {
      claves_bloqueadas_por_esis =
          s.claves_bloqueadas_por_esis ++ (record { esi_id = name; key = key }) ∷ [];
    }

    -- The answer 32: the running ESI waits for the key.
    unfoldable pub bloquear : Text → Estado F → Outcome (Estado F)
    unfolding send_header encolar
    bloquear key s = elim s.un_esi [
      | none ↦ fault
      | some p ↦
          let s' = send_header s s.socket_c 32 in
          done (record s' { lista_bloqueados = encolar key p s'.lista_bloqueados; block = true })
    ]

    -- The test of the front of the queue: with CONSOLA there, or another, or none, the ESI waits.
    unfoldable pub bloquear_por_frente : Text → List ℕ → Estado F → Outcome (Estado F)
    bloquear_por_frente key [] s = bloquear key s
    bloquear_por_frente key (p ∷ ps) s = do
      one_esi ← load s p
      if equals_ignore_case one_esi.name consola then bloquear key s else bloquear key s

    unfoldable pub check_key : Text → Estado F → Outcome (Estado F)
    check_key key s0 = do
      un_esi ← load_un_esi s0
      let s : Estado F = record s0 { block = false }
      elim (find_by_key s.lista_bloqueados key) [
        | none ↦
            let s' : Estado F = record s {
              lista_bloqueados =
                  s.lista_bloqueados ++ (record { cola_esis_bloqueados = []; key = key }) ∷ [];
            } in
            done (send_header (reservar un_esi.name key s') s.socket_c 31)
        | some a_key ↦
            if is_empty a_key.cola_esis_bloqueados
              && not (is_key_blocked s.claves_bloqueadas_por_esis key)
            then done (send_header (reservar un_esi.name key s) s.socket_c 31)
            else bloquear_por_frente key a_key.cola_esis_bloqueados s
      ]

    -- The keys of the configuration are blocked by an ESI of the name CONSOLA. Of that object only the
    -- name is set; `fondo` stands for the rest.
    unfoldable pub new_blocked_keys : Esi F → List Text → Estado F → Estado F
    new_blocked_keys fondo [] s = s
    new_blocked_keys fondo (key ∷ keys) s = new_blocked_keys fondo keys (record s {
      esis = s.esis ++ (record fondo { name = consola }) ∷ [];
      lista_bloqueados =
          s.lista_bloqueados
          ++ (record { cola_esis_bloqueados = length s.esis ∷ []; key = key }) ∷ [];
    })
