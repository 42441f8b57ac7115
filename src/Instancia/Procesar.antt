-- ===== src/Instancia/Procesar.antt =====
-- procesarHeader, the message handler, and one round of dump.
pub mod Respuestas
use tp_re_distinto_so.Base.{
  ℕ, zero, suc, ◌+◌, ◌*◌, Bool, true, false, List, [], ◌∷◌, Option, none, some, Text, codes,
  c_string, Commons, Outcome, done, fault, exits, spent, ◌>>=◌, if◌then◌else◌, ◌==◌, ltb, length,
  take, drop,
}
use tp_re_distinto_so.Instancia.Estado.{
  Entrada, Header, Content, Estado, Sistema, Envio, bytes, vacio,
}
use tp_re_distinto_so.Instancia.Tabla.{free_entries}
use tp_re_distinto_so.Instancia.Memoria.{get_cant_paginas, get_value, read_bytes, at}
use tp_re_distinto_so.Instancia.Claves.{
  enviar, send_header, send_header_with_length, revisar_lista, buscar_por_clave, guardar_en_claves,
  copiar_a_map, store_key,
}
use tp_re_distinto_so.Instancia.Compactar.{compactar}
use tp_re_distinto_so.Instancia.Circ.{set_circ}
use tp_re_distinto_so.Instancia.Lru.{set_lru}

-- The key and the value of a SET, from the bytes that follow the header.
unfoldable pub deserializar : Header → List ℕ → Content
deserializar h carga = record {
  clave = c_string (take h.len_clave carga);
  valor = c_string (take h.len_valor (drop h.len_clave carga));
}

-- The key of a GET, STORE or STATUS.
unfoldable pub recibir_clave : Header → List ℕ → Text
recibir_clave h carga = c_string (take h.len_clave carga)

-- The answer to STATUS gives the length of the value in the second length.
unfoldable pub responder_status : Option (List ℕ) → Estado → Estado
responder_status none s = send_header_with_length s 19 0 0
responder_status (some value) s =
    let texto = c_string value in
    enviar (send_header_with_length s 13 0 (length texto)) (bytes texto)

module _ (commons : Commons) (sistema : Sistema) (fuel : ℕ) where
  open commons use {equals_ignore_case}

  -- A new key gets its file.
  unfoldable pub registrar : Header → Content → Estado → Outcome Estado
  registrar h mensaje s =
      if revisar_lista commons s.lista_claves mensaje.clave
      then done s
      else guardar_en_claves commons sistema s h mensaje.clave

  -- Another algorithm stores nothing.
  unfoldable pub reemplazar : Content → Estado → Outcome Estado
  reemplazar mensaje s =
      if equals_ignore_case s.alg_reemplazo (codes "CIRC")
      then (do
        paginas ← get_cant_paginas s.tamanio_entradas (length mensaje.valor)
        set_circ commons fuel mensaje paginas s)
      else (if equals_ignore_case s.alg_reemplazo (codes "LRU")
          then (do
            paginas ← get_cant_paginas s.tamanio_entradas (length mensaje.valor)
            set_lru commons fuel mensaje paginas s)
          else done s)

  unfoldable pub procesar_set : Header → List ℕ → Estado → Outcome Estado
  procesar_set h carga s = do
    let mensaje = deserializar h carga
    s1 ← registrar h mensaje s
    s2 ← reemplazar mensaje s1
    done (send_header_with_length s2 12 (free_entries commons s2.tabla) 0)

  -- An unknown id does nothing.
  unfoldable pub procesar_header : Header → List ℕ → Estado → Outcome Estado
  procesar_header h carga s =
      if h.id == 11
      then compactar s true
      else (if h.id == 12
          then procesar_set h carga s
          else (if h.id == 13
              then done (send_header s 12)
              else (if h.id == 14
                  then (do
                    s' ← store_key commons s (recibir_clave h carga)
                    done (send_header s' 12))
                  else (if h.id == 15
                      then (do
                        value ← get_value commons s (recibir_clave h carga)
                        done (responder_status value s))
                      else done s))))

-- The `for` of dump from entry i. A key without a map ends the process; an entry of several pages
-- is skipped whole, `pages - 1` by the body and one by the `for`.
module _ (commons : Commons) where
  open commons use {equals_ignore_case}

  unfoldable pub volcar : ℕ → Entrada → Estado → Outcome Estado
  volcar i e s = elim (buscar_por_clave commons s.lista_claves e.clave) [
    | none ↦ exits
    | some m ↦ do
      bs ← read_bytes s.mem (i * s.tamanio_entradas) e.tamanio
      maps ← copiar_a_map commons e.clave bs s.lista_claves
      done (record s { lista_claves = maps })
  ]

  unfoldable pub dump_desde : ℕ → ℕ → Estado → Outcome Estado
  dump_desde zero i s = spent
  dump_desde (suc fuel) i s =
      let siguiente = dump_desde fuel (i + 1) s in
      let saltar = λ (s' : Estado) (paginas : ℕ). dump_desde fuel (i + paginas) s' in
      if ltb i s.cant_entradas
      then (do
        e ← at s.tabla i
        if equals_ignore_case e.clave vacio then siguiente else (do
          s' ← volcar i e s
          paginas ← get_cant_paginas s.tamanio_entradas e.tamanio
          saltar s' paginas))
      else done s

  unfoldable pub dump : ℕ → Estado → Outcome Estado
  dump fuel s = dump_desde fuel 0 s
