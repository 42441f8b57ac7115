-- ===== src/Coordinador/Estado.antt =====
-- Coordinador.h: the instances that the coordinator knows, and the global variables, which its threads
-- share.
use tp_re_distinto_so.Base.{
  ℕ, ◌+◌, Bool, List, [], ◌∷◌, ◌++◌, Text, none, some, Outcome, done, fault, get_elem?, update_at,
}

-- _Algorithm
pub data Algorithm : Type 0 where
  el lsu ke : Algorithm

-- _Operation
pub data Operation : Type 0 where
  get set store status abort compact : Operation

-- _Client
pub data Client : Type 0 where
  instance_client esi_client scheduler_client : Client

-- content_header
pub record Header : Type 0 where
  pub id : ℕ
  pub len : ℕ
  pub len2 : ℕ

-- What is sent through a socket: a header, or the bytes that follow one.
pub data Envio : Type 0 where
  header : ℕ → Header → Envio
  bytes : ℕ → List ℕ → Envio

-- instance_t. The letters are characters from 0 to 91; `start` is the value of the semaphore, and a
-- dictionary without values is the list of its keys.
pub record Instance : Type 0 where
  pub name : Text
  pub socket : ℕ
  pub free_space : ℕ
  pub is_active : Bool
  pub letter_min : ℕ
  pub letter_max : ℕ
  pub start : ℕ
  pub keys : List Text

-- The global variables; a semaphore is its value. `key` and `value` are those of `message`. A socket
-- is in `cerrados` from its close until the system gives its number to a new connection.
pub record Estado : Type 0 where
  pub algorithm : Algorithm
  pub instances : List Instance
  pub instance_pointer : ℕ
  pub one_instance : ℕ
  pub max_storage_size : ℕ
  pub key : Text
  pub value : Text
  pub operation : Operation
  pub key_is_not_blocked : Bool
  pub result : Bool
  pub has_value : Bool
  pub hello_id : Client
  pub num_esi : ℕ
  pub esi_operation : ℕ
  pub scheduler_response : ℕ
  pub result_instance : ℕ
  pub compact : ℕ
  pub cerrados : List ℕ
  pub enviados : List Envio

-- What the coordinator sees of a socket that it has not closed: whether the other side is gone.
pub record Red : Type 0 where
  pub caido : ℕ → Bool

-- *p
unfoldable pub instancia_de : Estado → ℕ → Outcome Instance
instancia_de s p = elim (get_elem? s.instances p) [ none ↦ fault | some q ↦ done q ]

-- sem_post(&p->start)
unfoldable pub post_start : ℕ → Estado → Estado
post_start p s = record s {
  instances = update_at p (λ q. record q { start = q.start + 1 }) s.instances;
}

unfoldable pub enviar : Envio → Estado → Estado
enviar e s = record s { enviados = s.enviados ++ e ∷ [] }

unfoldable pub send_header : ℕ → ℕ → Estado → Estado
unfolding enviar
send_header socket id s = enviar (header socket (record { id = id; len = 0; len2 = 0 })) s
