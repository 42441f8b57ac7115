-- ===== src/Instancia/Estado.antt =====
-- Instancia.h: the entries of the table, the mapped files and the state of the process.
use tp_re_distinto_so.Base.{Bool, ℕ, List, Option, some, none, Text, codes, ℤ, ◌≡◌, ◌≤◌, length}

-- entrada_t. A key is its text; the buffer has 40 bytes.
pub record Entrada : Type 0 where
  pub clave : Text
  pub tamanio : ℕ
  pub age : ℤ

-- map_t: the key, the mapped bytes of its file and the descriptor.
pub record Mapa : Type 0 where
  pub clave : Text
  pub map : List ℕ
  pub fd : ℕ

-- content_header
pub record Header : Type 0 where
  pub id : ℕ
  pub len_clave : ℕ
  pub len_valor : ℕ

-- content
pub record Content : Type 0 where
  pub clave : Text
  pub valor : Text

-- What is sent to the coordinator: a header, or the bytes that follow one.
pub data Envio : Type 0 where
  header : Header → Envio
  bytes : List ℕ → Envio

-- The configuration, the table, the storage `mem`, the list of maps and the global variables. The
-- messages sent to the coordinator are kept in the order of sending.
pub record Estado : Type 0 where
  pub cant_entradas : ℕ
  pub tamanio_entradas : ℕ
  pub alg_reemplazo : Text
  pub file_path : Text
  pub tabla : List Entrada
  pub mem : List ℕ
  pub lista_claves : List Mapa
  pub index_circular : ℕ
  pub comienzo_de_entradas_libres : ℕ
  pub flag_compactar : ℕ
  pub enviados : List Envio
  -- What a read of the entry behind the table finds: nothing that can be read, or whether "vacio"
  -- stands there.
  pub tras_tabla : Option Bool

-- The key of a free entry.
abbrev pub vacio : Text
vacio = codes "vacio"

-- The size of the key's buffer in an entry.
abbrev pub max_clave : ℕ
max_clave = 40

-- What open, lseek, write and mmap give for a file name and a length: the descriptor and the mapped
-- bytes, or a failure. mmap refuses the length 0, and maps whole pages of memory.
pub record Sistema : Type 0 where
  pub mapear : Text → ℕ → Option (ℕ × List ℕ)
  pub mapear_zero : (file_name : Text) → mapear file_name 0 ≡ none
  pub mapear_length :
      (file_name : Text) (n fd : ℕ) (bs : List ℕ)
      → mapear file_name n ≡ some (fd, bs)
      → n ≤ length bs
