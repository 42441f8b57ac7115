-- ===== src/Planificador/Estado.antt =====
-- Planificador.h: the ESIs, the keys and the global variables of the scheduler. A t_esi is shared by
-- the lists that hold it, so it stands in a store and the lists hold pointers, which are indices.
use tp_re_distinto_so.Base.{
  ℕ, Bool, List, [], ◌∷◌, ◌++◌, Option, none, some, Text, codes, Outcome, done, fault, get_elem?,
  set,
}

-- _Algorithm
pub data Algorithm : Type 0 where
  sjfsd sjfcd hrrn : Algorithm

-- The type `float` and what the scheduler computes with it; `trunc` is the value of a float that is
-- converted to `int` and back.
pub record Floats (F : Type 0) : Type 0 where
  pub of_int : ℕ → F
  pub trunc : F → F
  pub add : F → F → F
  pub sub : F → F → F
  pub mul : F → F → F
  pub div : F → F → F
  pub le : F → F → Bool
  pub lt : F → F → Bool

-- t_esi
pub record Esi (F : Type 0) : Type 0 where
  pub socket : ℕ
  pub name : Text
  pub instructions_counter : ℕ
  pub cpu_time_estimated : F
  pub cpu_time_previous : F
  pub waiting_time : F

-- clave_bloqueada_t
pub record ClaveBloqueada : Type 0 where
  pub cola_esis_bloqueados : List ℕ
  pub key : Text

-- clave_bloqueada_por_esi_t
pub record ClavePorEsi : Type 0 where
  pub esi_id : Text
  pub key : Text

-- A header that was sent, with its socket.
pub record Envio : Type 0 where
  pub socket : ℕ
  pub id : ℕ

-- The global variables. `hay_esis` and `esi_executing` are the values of the semaphores, and NULL is
-- `none`.
pub record Estado (F : Type 0) : Type 0 where
  pub algorithm : Algorithm
  pub initial_estimation : ℕ
  pub alpha : ℕ
  pub socket_c : ℕ
  pub esis : List (Esi F)
  pub un_esi : Option ℕ
  pub lista_ready : List ℕ
  pub lista_bloqueados : List ClaveBloqueada
  pub claves_bloqueadas_por_esis : List ClavePorEsi
  pub finished_esis : List ℕ
  pub num_esi : ℕ
  pub fin_de_esi : Bool
  pub respuesta_ok : Bool
  pub block : Bool
  pub abort_esi : Bool
  pub hay_esis : ℕ
  pub esi_executing : ℕ
  pub enviados : List Envio

-- The name that stands for the console in a queue.
abbrev pub consola : Text
consola = codes "CONSOLA"

module _ {F : Type 0} where
  -- *p
  unfoldable pub load : Estado F → ℕ → Outcome (Esi F)
  load s p = elim (get_elem? s.esis p) [ none ↦ fault | some e ↦ done e ]

  -- *un_esi
  unfoldable pub load_un_esi : Estado F → Outcome (Esi F)
  load_un_esi s = elim s.un_esi [ none ↦ fault | some p ↦ load s p ]

  -- *p = e
  unfoldable pub store : Estado F → ℕ → Esi F → Estado F
  store s p e = record s { esis = set s.esis p e }

  unfoldable pub send_header : Estado F → ℕ → ℕ → Estado F
  send_header s socket id = record s {
    enviados = s.enviados ++ (record { socket = socket; id = id }) ∷ [];
  }
