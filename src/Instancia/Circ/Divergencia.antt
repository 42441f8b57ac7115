-- ===== src/Instancia/Circ/Divergencia.antt =====
-- guardarEnTablaCIRC does not end on a table in which every entry belongs to a value of several
-- pages: it skips all of them, compacts, begins again at 0 and skips them again.
use tp_re_distinto_so.Base.{
  ℕ, zero, suc, ◌+◌, ◌≤◌, ◌<◌, ◌≡◌, refl, inl, inr, Bool, Option, true, false, [], Commons, done,
  spent, leb, ◌==◌, lt→ltb, length, get_elem?-in, All, All-get_elem?, Bool-cases, arith,
}
use tp_re_distinto_so.Instancia.Estado.{Entrada, Content, Estado}
use tp_re_distinto_so.Instancia.Memoria.{at}
use tp_re_distinto_so.Instancia.Memoria.Paginas.{get_cant_paginas-ceil}
use tp_re_distinto_so.Instancia.Compactar.Partir.{leer_tras}
use tp_re_distinto_so.Instancia.Claves.{send_header}
use tp_re_distinto_so.Instancia.Compactar.{
  Almacen, es_vacia, compactar_en, compactar_desde, compactar, terminar,
}
use tp_re_distinto_so.Instancia.Circ.{guardar_en_tabla_circ}

-- A taken entry of a value that is larger than an entry.
abbrev pub EsGrande : ℕ → Entrada → Type 0
EsGrande t e = (t < e.tamanio) × (es_vacia e ≡ false)

compactar_llena :
    (detras : Option Bool) (cant t r i : ℕ) (a : Almacen)
    → length a.tabla ≡ cant
    → All (EsGrande t) a.tabla
    → i + r ≡ cant
    → compactar_desde detras cant t r i a ≡ done a
unfolding compactar_desde compactar_en at
compactar_llena detras cant t zero i a la g e = refl
compactar_llena detras cant t (suc r) i a la g e =
    let (x, ge) = get_elem?-in a.tabla i (omega arith) in
    let grande = All-get_elem? (EsGrande t) a.tabla i x g ge in
    rw (ge, at, grande.1) (compactar_llena detras cant t r (i + 1) a la g (omega arith))

compactar-llena :
    (s : Estado) (send : Bool)
    → length s.tabla ≡ s.cant_entradas
    → All (EsGrande s.tamanio_entradas) s.tabla
    → compactar s send ≡ done (terminar s send (record { tabla = s.tabla; mem = s.mem }))
unfolding compactar
compactar-llena s send la g = rw (
    compactar_llena s.tras_tabla s.cant_entradas s.tamanio_entradas s.cant_entradas 0
      (record { tabla = s.tabla; mem = s.mem }) la g (omega arith))

module _ (commons : Commons) (mensaje : Content) (paginas : ℕ) where
  -- With entries of some bytes, where every entry of the table is taken by a value larger than an
  -- entry, no fuel is enough to place a value of some pages, whichever the position and however the
  -- flag (0 or 1) stands: the call does not return.
  pub guardar_en_tabla_circ-diverges :
      (fuel : ℕ) (s : Estado)
      → 0 < paginas
      → 0 < s.tamanio_entradas
      → length s.tabla ≡ s.cant_entradas
      → All (EsGrande s.tamanio_entradas) s.tabla
      → s.flag_compactar ≤ 1
      → guardar_en_tabla_circ commons fuel mensaje paginas s ≡ spent
  unfolding guardar_en_tabla_circ terminar send_header
  guardar_en_tabla_circ-diverges zero s pp tp la g f = refl
  guardar_en_tabla_circ-diverges (suc fuel) s pp tp la g f =
      elim (Bool-cases (leb (s.index_circular + paginas) s.cant_entradas)) [
        | inl cabe ↦
            let (e, ge) = get_elem?-in s.tabla s.index_circular (ground arith) in
            let read : at s.tabla s.index_circular ≡ done e =
              leer_tras s.tabla [] s.tabla s.index_circular s.index_circular e refl (omega arith)
                ge in
            let grande = All-get_elem? (EsGrande s.tamanio_entradas) s.tabla _ e g ge in
            let (tam, gp, _, _) = get_cant_paginas-ceil s.tamanio_entradas e.tamanio tp in
            rw (cabe, read, lt→ltb s.tamanio_entradas e.tamanio grande.0, gp)
              (guardar_en_tabla_circ-diverges fuel
                (record s { index_circular = s.index_circular + tam }) pp tp la g f)
        | inr no_cabe ↦ elim (Bool-cases (s.flag_compactar == 0)) [
          | inl cero ↦
              rw (no_cabe, cero, compactar-llena (send_header s 11) false la g)
                (guardar_en_tabla_circ-diverges fuel _ pp tp la g (omega arith))
          | inr uno ↦
              rw (no_cabe, uno, (let u : (s.flag_compactar == 1) ≡ true = ground arith in u))
                (guardar_en_tabla_circ-diverges fuel
                  (record s { index_circular = 0; flag_compactar = 0 }) pp tp la g (omega arith))
        ]
      ]
