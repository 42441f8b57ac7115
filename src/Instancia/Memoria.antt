-- ===== src/Instancia/Memoria.antt =====
-- getCantPaginas, guardarEnMem and get_value: how many entries a value takes, and the bytes of
-- the storage `mem`.
pub mod Copias
pub mod Paginas
use tp_re_distinto_so.Base.{
  ℕ, suc, ◌+◌, ◌*◌, ◌/◌, ◌%◌, List, [], ◌∷◌, ◌++◌, Option, none, some, Text, Commons, Outcome, done,
  fault, ◌>>=◌, if◌then◌else◌, leb, ◌==◌, length, take, drop, get_elem?,
}
use tp_re_distinto_so.Instancia.Estado.{Entrada, Estado}
use tp_re_distinto_so.Instancia.Tabla.{consultar_tabla}

-- The division by a size of 0 is undefined.
unfoldable pub get_cant_paginas : ℕ → ℕ → Outcome ℕ
get_cant_paginas tamanio_entradas n =
    if tamanio_entradas == 0
    then fault
    else done (if n % tamanio_entradas == 0 then n / tamanio_entradas else n / tamanio_entradas + 1)

-- memcpy(buffer + p, bs, length of bs)
unfoldable pub write_bytes : List ℕ → ℕ → List ℕ → Outcome (List ℕ)
write_bytes buffer p bs =
    if leb (p + length bs) (length buffer)
    then done (take p buffer ++ (bs ++ drop (p + length bs) buffer))
    else fault

-- The n bytes at buffer + p.
unfoldable pub read_bytes : List ℕ → ℕ → ℕ → Outcome (List ℕ)
read_bytes buffer p n = if leb (p + n) (length buffer) then done (take n (drop p buffer)) else fault

-- An access to an array.
unfoldable pub at {ℓ} : {A : Type ℓ} → List A → ℕ → Outcome A
at xs i = elim (get_elem? xs i) [ none ↦ fault | some x ↦ done x ]

-- The value is written with its NUL.
unfoldable pub guardar_en_mem : ℕ → List ℕ → Text → ℕ → Outcome (List ℕ)
guardar_en_mem tamanio_entradas mem valor posicion =
    write_bytes mem (posicion * tamanio_entradas) (valor ++ 0 ∷ [])

-- The size of the entry at the position, and that many bytes of the storage.
unfoldable pub leer_valor : Estado → ℕ → Outcome (List ℕ)
leer_valor s posicion = do
  e ← at s.tabla posicion
  read_bytes s.mem (posicion * s.tamanio_entradas) e.tamanio

module _ (commons : Commons) where
  -- NULL is `none`.
  unfoldable pub get_value : Estado → Text → Outcome (Option (List ℕ))
  get_value s clave = elim (consultar_tabla commons s.tabla clave) [
    | none ↦ done none
    | some posicion ↦ do value ← leer_valor s posicion; done (some value)
  ]
