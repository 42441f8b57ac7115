-- ===== src/Instancia/Tabla.antt =====
-- The searches over the table: consultarTabla, consultarTablaCIRC, consultarTablaLRU,
-- buscarEspacioLibre and free_entries. The position -1 is `none`.
pub mod Espacio
pub mod Edades
use tp_re_distinto_so.Base.{
  ℕ, zero, suc, ◌+◌, Bool, true, false, List, [], ◌∷◌, Option, none, some, Text, str_eq, Commons,
  Outcome, done, fault, if◌then◌else◌, ltb, leb, ℤ, pos, negsuc, next, ltz,
}
use tp_re_distinto_so.Instancia.Estado.{Entrada, vacio}

-- What consultarTablaLRU leaves: the aged table, laMasVieja and the position.
pub record Consulta : Type 0 where
  pub tabla : List Entrada
  pub la_mas_vieja : ℤ
  pub posicion : Option ℕ

-- The aging of one entry in consultarTablaLRU.
unfoldable pub envejecer : ℕ → Entrada → Entrada
envejecer tamanio_entradas e =
    let age = if str_eq e.clave vacio then e.age else next e.age in
    record e { age = if ltb tamanio_entradas e.tamanio then negsuc 0 else age }

-- The position once found is kept.
unfoldable pub primera : Option ℕ → Bool → ℕ → Option ℕ
primera (some r) b i = some r
primera none b i = if b then some i else none

-- `if (posicion == -1) posicion = i;`
unfoldable pub comienzo_de : Option ℕ → ℕ → ℕ
comienzo_de none i = i
comienzo_de (some p) i = p

module _ (commons : Commons) where
  open commons use {equals_ignore_case}

  unfoldable pub consultar_desde : Text → ℕ → List Entrada → Option ℕ
  consultar_desde clave i [] = none
  consultar_desde clave i (e ∷ es) =
      if equals_ignore_case e.clave clave then some i else consultar_desde clave (i + 1) es

  unfoldable pub consultar_tabla : List Entrada → Text → Option ℕ
  consultar_tabla tabla clave = consultar_desde clave 0 tabla

  -- The loop reads the first `n` entries; past the end of the table it is undefined.
  unfoldable pub consultar_hasta : Text → ℕ → ℕ → List Entrada → Outcome (Option ℕ)
  consultar_hasta clave zero i es = done none
  consultar_hasta clave (suc n) i [] = fault
  consultar_hasta clave (suc n) i (e ∷ es) =
      if equals_ignore_case e.clave clave then done (some i) else consultar_hasta clave n (i + 1) es

  unfoldable pub consultar_tabla_circ : ℕ → List Entrada → Text → Outcome (Option ℕ)
  consultar_tabla_circ comienzo tabla clave = consultar_hasta clave comienzo 0 tabla

  unfoldable pub consultar_lru_desde : ℕ → Text → ℕ → ℤ → Option ℕ → List Entrada → Consulta
  consultar_lru_desde t clave i vieja r [] = record {
    tabla = [];
    la_mas_vieja = vieja;
    posicion = r;
  }
  consultar_lru_desde t clave i vieja r (e ∷ es) =
      let e' = envejecer t e in
      let rest =
        consultar_lru_desde t clave (i + 1) (if ltz vieja e'.age then e'.age else vieja)
          (primera r (equals_ignore_case e'.clave clave) i) es in
      record rest { tabla = e' ∷ rest.tabla }

  unfoldable pub consultar_tabla_lru : ℕ → List Entrada → Text → Consulta
  consultar_tabla_lru tamanio_entradas tabla clave =
      consultar_lru_desde tamanio_entradas clave 0 (pos 0) none tabla

  unfoldable pub espacio_desde : ℕ → ℕ → Option ℕ → ℕ → List Entrada → Option ℕ
  espacio_desde paginas i posicion lugares [] = none
  espacio_desde paginas i posicion lugares (e ∷ es) = elim (equals_ignore_case e.clave vacio) [
    | true ↦ elim (leb paginas (lugares + 1)) [
      | true ↦ some (comienzo_de posicion i)
      | false ↦ espacio_desde paginas (i + 1) (some (comienzo_de posicion i)) (lugares + 1) es
    ]
    | false ↦ espacio_desde paginas (i + 1) none 0 es
  ]

  unfoldable pub buscar_espacio_libre : List Entrada → ℕ → Option ℕ
  buscar_espacio_libre tabla paginas = espacio_desde paginas 0 none 0 tabla

  unfoldable pub free_entries : List Entrada → ℕ
  free_entries [] = 0
  free_entries (e ∷ es) =
      if equals_ignore_case e.clave vacio then suc (free_entries es) else free_entries es
