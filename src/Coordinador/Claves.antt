-- ===== src/Coordinador/Claves.antt =====
-- Which instance has a key: find_by_key, find_by_key_and_active, test_connection, save_on_instance.
use tp_re_distinto_so.Base.{
  ℕ, Bool, true, false, ◌&&◌, List, [], ◌∷◌, Option, none, some, Text, Outcome, done, fault, ◌>>=◌,
  if◌then◌else◌, ◌==◌, find_index, any_satisfy, ◌≡◌, ◌||◌, not,
}
use tp_re_distinto_so.Coordinador.Estado.{Instance, Estado, Red, instancia_de, post_start}
use tp_re_distinto_so.Coordinador.Instancias.{disconnect_instance_in_list}

-- The dictionaries of the commons library, as the list of their keys: `same` is its comparison of two
-- keys, and the laws say what its documentation says of put, has_key and remove.
pub record Dictionary : Type 0 where
  pub same : Text → Text → Bool
  pub has_key : List Text → Text → Bool
  pub put : List Text → Text → List Text
  pub remove : List Text → Text → List Text
  pub same_refl : (k : Text) → same k k ≡ true
  pub has_key_nil : (k : Text) → has_key [] k ≡ false
  pub has_key-put : (d : List Text) (k j : Text) → has_key (put d k) j ≡ (same k j || has_key d j)
  pub has_key-remove :
      (d : List Text) (k j : Text) → has_key (remove d k) j ≡ (not (same k j) && has_key d j)

-- The result of test_connection, with the state.
pub record Conexion : Type 0 where
  pub viva : Bool
  pub estado : Estado

-- The result of save_on_instance, with the state.
pub record Guardado : Type 0 where
  pub ok : Bool
  pub estado : Estado

unfoldable pub cerrar : ℕ → Estado → Estado
cerrar socket s = record s { cerrados = socket ∷ s.cerrados }

unfoldable pub disconnect_socket : ℕ → Bool → Estado → Outcome Estado
unfolding cerrar
disconnect_socket socket is_instance s =
    if is_instance
    then disconnect_instance_in_list socket (cerrar socket s)
    else done (cerrar socket s)

module _ (dic : Dictionary) where
  unfoldable pub tiene_clave : Text → Instance → Bool
  tiene_clave key q = dic.has_key q.keys key

  unfoldable pub tiene_y_activa : Text → Instance → Bool
  tiene_y_activa key q = dic.has_key q.keys key && q.is_active

  unfoldable pub find_by_key : List Instance → Text → Option ℕ
  unfolding tiene_clave
  find_by_key lista key = find_index (tiene_clave key) lista

  unfoldable pub find_by_key_and_active : List Instance → Text → Option ℕ
  unfolding tiene_y_activa
  find_by_key_and_active lista key = find_index (tiene_y_activa key) lista

module _ (red : Red) where
  -- A recv that only peeks gives 0 when the other side is gone. On a socket that is closed it gives -1,
  -- which counts as connected.
  unfoldable pub esta_caido : ℕ → Estado → Bool
  esta_caido socket s = red.caido socket && not (any_satisfy (λ c. c == socket) s.cerrados)

  unfoldable pub test_connection : ℕ → Estado → Outcome Conexion
  unfolding esta_caido
  test_connection socket s =
      if esta_caido socket s
      then (do s' ← disconnect_socket socket true s; done (record { viva = false; estado = s' }))
      else done (record { viva = true; estado = s })

  -- The instance p is told to work, if it is still there.
  unfoldable pub guardar_en : ℕ → Estado → Outcome Guardado
  guardar_en p s = do
    q ← instancia_de s p
    c ← test_connection q.socket s
    if c.viva
        then done (record { ok = true; estado = post_start p c.estado })
        else done (record { ok = false; estado = c.estado })

  module _ (dic : Dictionary) where
    -- The branches of save_on_instance for the instance p that has the key.
    unfoldable pub guardar_por : ℕ → Instance → Estado → Outcome Guardado
    guardar_por p q s =
        if q.is_active
        then guardar_en p s
        else elim (find_by_key_and_active dic s.instances s.key) [
          | none ↦ done (record { ok = false; estado = s })
          | some otra ↦ guardar_en otra s
        ]

    -- Without an instance that has the key, NULL is followed.
    unfoldable pub save_on_instance : Estado → Outcome Guardado
    save_on_instance s = elim (find_by_key dic s.instances s.key) [
      | none ↦ fault
      | some p ↦ do q ← instancia_de s p; guardar_por p q s
    ]
