-- ===== src/Coordinador/Instancias.antt =====
-- The list of instances: add_instance_to_list and disconnect_instance_in_list.
pub mod Altas
pub mod Destino
use tp_re_distinto_so.Base.{
  ℕ, ◌+◌, ◌-◌, Bool, true, false, List, [], ◌∷◌, ◌++◌, Option, none, some, Text, Commons, Outcome,
  done, waits, ◌>>=◌, if◌then◌else◌, ◌==◌, find_first, update_first, length,
}
use tp_re_distinto_so.Coordinador.Estado.{Algorithm, el, lsu, ke, Instance, Estado}
use tp_re_distinto_so.Coordinador.Letras.{assign_letters}

-- What add_instance_to_list leaves: the state, and the index of the new instance, or NULL.
pub record Alta : Type 0 where
  pub estado : Estado
  pub nueva : Option ℕ

-- if (algorithm == KE) assign_letters();
unfoldable pub asignar : Algorithm → Estado → Outcome Estado
asignar ke s = do lista ← assign_letters s.instances; done (record s { instances = lista })
asignar el s = done s
asignar lsu s = done s

unfoldable pub tiene_socket : ℕ → Instance → Bool
tiene_socket socket q = q.socket == socket

unfoldable pub socket_is_equal : List Instance → ℕ → Option Instance
unfolding tiene_socket
socket_is_equal lista socket = find_first (tiene_socket socket) lista

-- The instance is down and has no letters.
unfoldable pub caida : Instance → Instance
caida q = record q { is_active = false; letter_min = 0; letter_max = 0 }

-- The instance is marked before the semaphore is waited for: this is the state that the other threads
-- see while this one waits.
abbrev pub marcar_caida : ℕ → Estado → Estado
marcar_caida socket s = record s {
  instances = update_first (tiene_socket socket) caida s.instances;
}

-- From sem_wait(&one_instance) on.
abbrev pub tras_marcar : Estado → Outcome Estado
tras_marcar s =
    if s.one_instance == 0
    then waits
    else asignar s.algorithm (record s { one_instance = s.one_instance - 1 })

-- Without an instance of that socket nothing changes. The outcome `waits` is that of tras_marcar on the
-- marked state.
unfoldable pub disconnect_instance_in_list : ℕ → Estado → Outcome Estado
unfolding tiene_socket caida
disconnect_instance_in_list socket s = elim (socket_is_equal s.instances socket) [
  | none ↦ done s
  | some q ↦ tras_marcar (marcar_caida socket s)
]

module _ (commons : Commons) where
  unfoldable pub tiene_nombre : Text → Instance → Bool
  tiene_nombre name q = commons.equals_ignore_case q.name name

  unfoldable pub name_is_equal : List Instance → Text → Option Instance
  unfolding tiene_nombre
  name_is_equal lista name = find_first (tiene_nombre name) lista

  unfoldable pub nueva_instancia : Text → ℕ → Instance
  nueva_instancia name socket = record {
    name = name;
    socket = socket;
    free_space = 999;
    is_active = true;
    letter_min = 0;
    letter_max = 0;
    start = 0;
    keys = [];
  }

  unfoldable pub conectada : ℕ → Instance → Instance
  conectada socket q = record q { socket = socket; is_active = true }

  unfoldable pub add_instance_to_list : Text → ℕ → Estado → Outcome Alta
  unfolding tiene_nombre nueva_instancia conectada
  add_instance_to_list name socket s = elim (name_is_equal s.instances name) [
    | some q ↦ do
      s' ←
          asignar s.algorithm (record s {
            instances = update_first (tiene_nombre name) (conectada socket) s.instances;
          })
      done (record { estado = s'; nueva = none })
    | none ↦ do
      s' ←
          asignar s.algorithm
            (record s { instances = s.instances ++ nueva_instancia name socket ∷ [] })
      done (record { estado = s'; nueva = some (length s.instances) })
  ]
