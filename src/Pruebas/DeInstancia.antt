-- ===== src/Pruebas/DeInstancia.antt =====
-- The properties of the Instancia at concrete tables.
use tp_re_distinto_so.Base.{
  to_lower, ℕ, ◌+◌, ◌*◌, ◌≤◌, ◌≡◌, refl, true, false, List, [], ◌∷◌, none, some, Text, codes,
  str_eq, c_string, map, done, fault, spent, replicate, length, take, drop, get_elem?, pos, ltz,
  All, arith,
}
use tp_re_distinto_so.Instancia.Estado.{Entrada, header, Estado}
use tp_re_distinto_so.Instancia.Tabla.{
  consultar_desde, consultar_tabla, consultar_tabla_lru, buscar_espacio_libre,
}
use tp_re_distinto_so.Instancia.Tabla.Espacio.{Libres, buscar_espacio_libre-first}
use tp_re_distinto_so.Instancia.Tabla.Edades.{un_turno_mas, Alcanzada, consultar_tabla_lru_lem}
use tp_re_distinto_so.Instancia.Memoria.{
  get_cant_paginas, get_value, guardar_en_mem, leer_valor, read_bytes, at,
}
use tp_re_distinto_so.Instancia.Memoria.Paginas.{
  get_cant_paginas-ceil, guardar_en_mem-read, guardar_en_mem-overflow,
}
use tp_re_distinto_so.Instancia.Compactar.{compactar, es_vacia, libre}
use tp_re_distinto_so.Instancia.Compactar.Orden.{EsAlmacen, Compactada, compactar-Compactada}
use tp_re_distinto_so.Instancia.Circ.{guardar_en_tabla_circ}
use tp_re_distinto_so.Instancia.Circ.Divergencia.{guardar_en_tabla_circ-diverges}
use tp_re_distinto_so.Instancia.Procesar.{procesar_header, recibir_clave}
use tp_re_distinto_so.Instancia.Procesar.Respuestas.{cabecera, store_answers_twice}
use tp_re_distinto_so.Pruebas.Entorno.{ascii, archivos, fold_eq}

abbrev pub con : Text → ℕ → Entrada
con clave n = record { clave = clave; tamanio = n; age = pos 1 }

abbrev pub con_tabla : List Entrada → List ℕ → Estado
con_tabla tabla mem = record {
  cant_entradas = length tabla;
  tamanio_entradas = 2;
  alg_reemplazo = codes "CIRC";
  file_path = codes "/dump/";
  tabla = tabla;
  mem = mem;
  lista_claves = [];
  index_circular = 0;
  comienzo_de_entradas_libres = 0;
  flag_compactar = 0;
  enviados = [];
  tras_tabla = some false;
}

-- A free entry, a taken one, a free one, a taken one.
abbrev pub agujereada : Estado
agujereada =
    con_tabla (libre ∷ con (codes "a") 2 ∷ libre ∷ con (codes "b") 1 ∷ [])
      (0 ∷ 0 ∷ 7 ∷ 8 ∷ 0 ∷ 0 ∷ 9 ∷ 0 ∷ [])

agujereada-EsAlmacen : EsAlmacen agujereada
unfolding es_vacia str_eq
agujereada-EsAlmacen = record {
  largo = refl;
  memoria = refl;
  atomicas = (omega arith, (omega arith, (omega arith, (omega arith, tt))));
}

compactar-Compactada_example : Compactada agujereada (compactar agujereada true)
compactar-Compactada_example = compactar-Compactada agujereada true false refl agujereada-EsAlmacen

agujereada-Libres : Libres ascii 1 (drop 2 agujereada.tabla)
unfolding fold_eq str_eq to_lower
agujereada-Libres = (refl, tt)

buscar_espacio_libre-first_example :
    (p : ℕ) × (buscar_espacio_libre ascii agujereada.tabla 1 ≡ some p)
    × Libres ascii 1 (drop p agujereada.tabla)
    × (p ≤ 2)
buscar_espacio_libre-first_example =
    buscar_espacio_libre-first ascii agujereada.tabla 1 2 (omega arith) agujereada-Libres

-- Every entry is a page of a value of two pages.
abbrev llena : Estado
llena = con_tabla (con (codes "a") 3 ∷ con (codes "a") 3 ∷ []) (1 ∷ 2 ∷ 3 ∷ 0 ∷ [])

llena-libre : es_vacia (con (codes "a") 3) ≡ false
unfolding es_vacia str_eq
llena-libre = refl

guardar_en_tabla_circ-diverges_example :
    guardar_en_tabla_circ ascii 100 (record { clave = codes "b"; valor = codes "x" }) 1 llena
    ≡ spent
guardar_en_tabla_circ-diverges_example =
    guardar_en_tabla_circ-diverges ascii (record { clave = codes "b"; valor = codes "x" }) 1 100
      llena (omega arith) (omega arith) refl
      ((omega arith, llena-libre), ((omega arith, llena-libre), tt)) (omega arith)

guardar_en_mem-read_example :
    (m : List ℕ) × (guardar_en_mem 2 (replicate 8 0) (codes "abc") 1 ≡ done m)
    × (read_bytes m (1 * 2) (length (codes "abc")) ≡ done (codes "abc"))
    × (get_elem? m (1 * 2 + length (codes "abc")) ≡ some 0)
    × (take (1 * 2) m ≡ take (1 * 2) (replicate 8 0))
    × (drop (1 * 2 + length (codes "abc") + 1) m
        ≡ drop (1 * 2 + length (codes "abc") + 1) (replicate 8 0))
    × (length m ≡ length (replicate {A = ℕ} 8 0))
guardar_en_mem-read_example = guardar_en_mem-read 2 (replicate 8 0) (codes "abc") 1 (omega arith)

guardar_en_mem-overflow_example : guardar_en_mem 2 (replicate 8 0) (codes "abcd") 2 ≡ fault
guardar_en_mem-overflow_example =
    guardar_en_mem-overflow 2 4 (replicate 8 0) (codes "abcd") 2 2 refl refl refl

get_cant_paginas-ceil_example :
    (p : ℕ) × (get_cant_paginas 4 9 ≡ done p) × (9 ≤ p * 4) × ((q : ℕ) → 9 ≤ q * 4 → p ≤ q)
get_cant_paginas-ceil_example = get_cant_paginas-ceil 4 9 (omega arith)

consultar_tabla_lru_example :
    let c = consultar_tabla_lru ascii 2 agujereada.tabla (codes "B") in
    (c.tabla ≡ map (un_turno_mas 2) agujereada.tabla)
    × (c.posicion ≡ consultar_tabla ascii agujereada.tabla (codes "B"))
    × All (λ e. ltz c.la_mas_vieja e.age ≡ false) c.tabla
    × (ltz c.la_mas_vieja (pos 0) ≡ false)
    × Alcanzada (pos 0) c.la_mas_vieja c.tabla
consultar_tabla_lru_example = consultar_tabla_lru_lem ascii 2 (codes "B") agujereada.tabla

ausente :
    consultar_tabla ascii agujereada.tabla (recibir_clave (cabecera 14 2 0) (codes "z")) ≡ none
unfolding consultar_tabla consultar_desde fold_eq str_eq to_lower recibir_clave c_string
ausente = refl

store_answers_twice_example :
    procesar_header ascii archivos 100 (cabecera 14 2 0) (codes "z") agujereada
    ≡ done
        (record agujereada { enviados = header (cabecera 15 0 0) ∷ header (cabecera 12 0 0) ∷ [] })
store_answers_twice_example =
    store_answers_twice ascii archivos 100 2 0 (codes "z") agujereada ausente

pub presente :
    get_value ascii agujereada (recibir_clave (cabecera 15 2 0) (codes "a"))
    ≡ done (some (7 ∷ 8 ∷ []))
unfolding get_value leer_valor read_bytes at consultar_tabla consultar_desde fold_eq str_eq to_lower
    recibir_clave c_string
presente = refl
