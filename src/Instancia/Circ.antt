-- ===== src/Instancia/Circ.antt =====
-- guardarEnTablaCIRC and the branch of SET for CIRC.
pub mod Divergencia
use tp_re_distinto_so.Base.{
  ℕ, zero, suc, ◌+◌, Bool, true, false, List, [], ◌∷◌, ◌++◌, Option, none, some, Text, str_eq,
  Commons, Outcome, done, fault, spent, ◌>>=◌, if◌then◌else◌, ltb, leb, ◌==◌, pos, length, take,
  drop, set,
}
use tp_re_distinto_so.Instancia.Estado.{Entrada, Content, Estado, vacio, max_clave}
use tp_re_distinto_so.Instancia.Tabla.{consultar_tabla_circ}
use tp_re_distinto_so.Instancia.Memoria.{get_cant_paginas, guardar_en_mem, at}
use tp_re_distinto_so.Instancia.Claves.{send_header, unmap_key}
use tp_re_distinto_so.Instancia.Compactar.{compactar}

-- The `while` that frees the entries of a key from some position on; it stops at another key, and
-- at the end of the table it reads out of bounds.
unfoldable pub liberar : (Entrada → Entrada) → Text → List Entrada → Outcome (List Entrada)
liberar f clave [] = fault
liberar f clave (e ∷ es) = elim (str_eq e.clave clave) [
  | true ↦ do rest ← liberar f clave es; done (f e ∷ rest)
  | false ↦ done (e ∷ es)
]

unfoldable pub liberar_desde :
    (Entrada → Entrada) → Text → ℕ → List Entrada → Outcome (List Entrada)
liberar_desde f clave p tabla = do
  rest ← liberar f clave (drop p tabla)
  done (take p tabla ++ rest)

unfoldable pub avanzar_comienzo : Estado → Estado
avanzar_comienzo s =
    if ltb s.comienzo_de_entradas_libres s.cant_entradas
    then record s { comienzo_de_entradas_libres = s.comienzo_de_entradas_libres + 1 }
    else s

module _ (commons : Commons) where
  -- An entry is taken: the key that it held loses its map. The key is copied to a buffer of 40 bytes.
  unfoldable pub ocupar : Content → ℕ → Estado → Outcome Estado
  ocupar mensaje i s = do
    e ← at s.tabla i
    let nueva : Entrada = record {
      clave = mensaje.clave;
      tamanio = length mensaje.valor;
      age = pos 0;
    }
    if ltb (length mensaje.clave) max_clave
        then done (record s {
          tabla = set s.tabla i nueva;
          lista_claves = unmap_key commons s.lista_claves e.clave;
        })
        else fault

  unfoldable pub ocupar_circ : Content → ℕ → ℕ → Estado → Outcome Estado
  ocupar_circ mensaje zero i s = done s
  ocupar_circ mensaje (suc rounds) i s = do
    s' ← ocupar mensaje i s
    ocupar_circ mensaje rounds (i + 1) (avanzar_comienzo s')

  unfoldable pub guardar_en_tabla_circ : ℕ → Content → ℕ → Estado → Outcome Estado
  guardar_en_tabla_circ zero mensaje paginas s = spent
  guardar_en_tabla_circ (suc fuel) mensaje paginas s =
      let saltar = λ (tam : ℕ).
        guardar_en_tabla_circ fuel mensaje paginas
          (record s { index_circular = s.index_circular + tam }) in
      let guardar = (do
        s' ← ocupar_circ mensaje paginas s.index_circular s
        m ← guardar_en_mem s.tamanio_entradas s'.mem mensaje.valor s.index_circular
        done (record s' { mem = m; index_circular = s.index_circular + paginas })) in
      let compactado = λ (s' : Estado).
        guardar_en_tabla_circ fuel mensaje paginas (record s' { flag_compactar = 1 }) in
      let reiniciado =
        guardar_en_tabla_circ fuel mensaje paginas
          (record s { index_circular = 0; flag_compactar = 0 }) in
      if leb (s.index_circular + paginas) s.cant_entradas
      then (do
        e ← at s.tabla s.index_circular
        if ltb s.tamanio_entradas e.tamanio
            then (get_cant_paginas s.tamanio_entradas e.tamanio >>= saltar)
            else guardar)
      else (if s.flag_compactar == 0
          then (compactar (send_header s 11) false >>= compactado)
          else (if s.flag_compactar == 1 then reiniciado else done s))

  -- The branch of SET for CIRC. Of a key that is there the size changes, the entries behind the
  -- pages of the new value are freed, and the value is written.
  unfoldable pub set_circ : ℕ → Content → ℕ → Estado → Outcome Estado
  set_circ fuel mensaje paginas s = do
    posicion ← consultar_tabla_circ commons s.comienzo_de_entradas_libres s.tabla mensaje.clave
    elim posicion [
      | none ↦ guardar_en_tabla_circ fuel mensaje paginas s
      | some p ↦ do
        e ← at s.tabla p
        let tabla = set s.tabla p (record e { tamanio = length mensaje.valor })
        tabla' ← liberar_desde (λ e'. record e' { clave = vacio }) mensaje.clave (p + paginas) tabla
        m ← guardar_en_mem s.tamanio_entradas s.mem mensaje.valor p
        done (record s { tabla = tabla'; mem = m })
    ]
