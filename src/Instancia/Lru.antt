-- ===== src/Instancia/Lru.antt =====
-- guardarEnTablaLRU and the branch of SET for LRU.
use tp_re_distinto_so.Base.{
  ℕ, zero, suc, ◌+◌, false, none, some, Commons, Outcome, done, spent, ◌>>=◌, if◌then◌else◌, ◌==◌,
  ℤ, pos, eqz, length, set, map,
}
use tp_re_distinto_so.Instancia.Estado.{Entrada, Content, Estado, vacio}
use tp_re_distinto_so.Instancia.Tabla.{buscar_espacio_libre, consultar_tabla_lru}
use tp_re_distinto_so.Instancia.Memoria.{guardar_en_mem, at}
use tp_re_distinto_so.Instancia.Compactar.{compactar}
use tp_re_distinto_so.Instancia.Circ.{ocupar, liberar_desde}

-- The entries of the age are freed; their sizes stay.
unfoldable pub liberar_edad : ℤ → Entrada → Entrada
liberar_edad vieja e = if eqz e.age vieja then record e { clave = vacio; age = pos 0 } else e

module _ (commons : Commons) where
  unfoldable pub ocupar_lru : Content → ℕ → ℕ → Estado → Outcome Estado
  ocupar_lru mensaje zero i s = done s
  ocupar_lru mensaje (suc rounds) i s = do
    s' ← ocupar commons mensaje i s
    ocupar_lru mensaje rounds (i + 1) s'

  -- The pages from the position on are taken, and the value is written.
  unfoldable pub ubicar_lru : Content → ℕ → ℕ → Estado → Outcome Estado
  ubicar_lru mensaje paginas posicion s = do
    s' ← ocupar_lru mensaje paginas posicion s
    m ← guardar_en_mem s.tamanio_entradas s'.mem mensaje.valor posicion
    done (record s' { mem = m })

  unfoldable pub guardar_en_tabla_lru : ℕ → Content → ℕ → ℤ → Estado → Outcome Estado
  guardar_en_tabla_lru zero mensaje paginas vieja s = spent
  guardar_en_tabla_lru (suc fuel) mensaje paginas vieja s =
      let compactado = λ (s' : Estado).
        guardar_en_tabla_lru fuel mensaje paginas vieja (record s' { flag_compactar = 1 }) in
      let reemplazado =
        guardar_en_tabla_lru fuel mensaje paginas vieja
          (record s { tabla = map (liberar_edad vieja) s.tabla; flag_compactar = 0 }) in
      elim (buscar_espacio_libre commons s.tabla paginas) [
        | some posicion ↦ ubicar_lru mensaje paginas posicion s
        | none ↦
            if s.flag_compactar == 0
            then (compactar s false >>= compactado)
            else (if s.flag_compactar == 1 then reemplazado else done s)
      ]

  -- The branch of SET for LRU: the whole table ages first.
  unfoldable pub set_lru : ℕ → Content → ℕ → Estado → Outcome Estado
  set_lru fuel mensaje paginas s =
      let c = consultar_tabla_lru commons s.tamanio_entradas s.tabla mensaje.clave in
      let s' = record s { tabla = c.tabla } in
      elim c.posicion [
        | none ↦ guardar_en_tabla_lru fuel mensaje paginas c.la_mas_vieja s'
        | some p ↦ do
          e ← at s'.tabla p
          let tabla = set s'.tabla p (record e { tamanio = length mensaje.valor; age = pos 0 })
          tabla' ←
              liberar_desde (λ e'. record e' { clave = vacio; age = pos 0 }) mensaje.clave
                (p + paginas) tabla
          m ← guardar_en_mem s'.tamanio_entradas s'.mem mensaje.valor p
          done (record s' { tabla = tabla'; mem = m })
      ]
