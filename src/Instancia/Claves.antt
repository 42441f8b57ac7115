-- ===== src/Instancia/Claves.antt =====
-- The list of maps: revisarLista, buscar_por_clave, guardarEnClaves, unmap_key and storeKey.
use tp_re_distinto_so.Base.{
  ℕ, zero, suc, ◌+◌, ◌*◌, Bool, true, false, List, [], ◌∷◌, ◌++◌, Option, none, some, Text, Commons,
  Outcome, done, fault, exits, ◌>>=◌, if◌then◌else◌, ◌==◌, find_first, remove_first,
}
use tp_re_distinto_so.Instancia.Estado.{Mapa, Header, Estado, Sistema, Envio, header}
use tp_re_distinto_so.Instancia.Tabla.{consultar_tabla}
use tp_re_distinto_so.Instancia.Memoria.{get_cant_paginas, read_bytes, write_bytes, at}

unfoldable pub enviar : Estado → Envio → Estado
enviar s m = record s { enviados = s.enviados ++ m ∷ [] }

unfoldable pub send_header_with_length : Estado → ℕ → ℕ → ℕ → Estado
unfolding enviar
send_header_with_length s id len1 len2 =
    enviar s (header (record { id = id; len_clave = len1; len_valor = len2 }))

unfoldable pub send_header : Estado → ℕ → Estado
unfolding enviar
send_header s id = enviar s (header (record { id = id; len_clave = 0; len_valor = 0 }))

-- The pages of the message as guardarEnClaves counts them, from `lenValor - 1`: with a length of 0
-- that is -1, one page, or -1 pages where an entry has one byte, and no map of that length is made.
unfoldable pub paginas_de_header : ℕ → ℕ → Outcome ℕ
unfolding get_cant_paginas
paginas_de_header tamanio_entradas zero =
    if tamanio_entradas == 0 then fault else (if tamanio_entradas == 1 then exits else done 1)
paginas_de_header tamanio_entradas (suc n) = get_cant_paginas tamanio_entradas n

module _ (commons : Commons) where
  open commons use {equals_ignore_case}

  unfoldable pub es_esta : Text → Mapa → Bool
  es_esta clave p = equals_ignore_case p.clave clave

  unfoldable pub buscar_por_clave : List Mapa → Text → Option Mapa
  unfolding es_esta
  buscar_por_clave lista_claves clave = find_first (es_esta clave) lista_claves

  unfoldable pub revisar_lista : List Mapa → Text → Bool
  unfolding buscar_por_clave
  revisar_lista lista_claves clave = elim (buscar_por_clave lista_claves clave) [
    | none ↦ false
    | some m ↦ true
  ]

  -- The file is made and mapped with the pages that the value takes; a failure ends the process.
  unfoldable pub guardar_en_claves : Sistema → Estado → Header → Text → Outcome Estado
  guardar_en_claves sistema s h clave = do
    paginas ← paginas_de_header s.tamanio_entradas h.len_valor
    elim (sistema.mapear (s.file_path ++ clave) (paginas * s.tamanio_entradas)) [
      | none ↦ exits
      | some (fd, bs) ↦ done (record s {
        lista_claves = s.lista_claves ++ (record { clave = clave; map = bs; fd = fd }) ∷ [];
      })
    ]

  unfoldable pub unmap_key : List Mapa → Text → List Mapa
  unfolding es_esta
  unmap_key lista_claves clave = remove_first (es_esta clave) lista_claves

  -- memcpy to the map of the first element with that key.
  unfoldable pub copiar_a_map : Text → List ℕ → List Mapa → Outcome (List Mapa)
  copiar_a_map clave bs [] = fault
  copiar_a_map clave bs (p ∷ ps) = elim (es_esta clave p) [
    | true ↦ do m ← write_bytes p.map 0 bs; done ((record p { map = m }) ∷ ps)
    | false ↦ do qs ← copiar_a_map clave bs ps; done (p ∷ qs)
  ]

  -- A key that is not in the table is answered with 15. The copy takes one byte more than the value;
  -- a key without a map is a NULL pointer.
  unfoldable pub store_key : Estado → Text → Outcome Estado
  store_key s clave = elim (consultar_tabla commons s.tabla clave) [
    | none ↦ done (send_header s 15)
    | some posicion ↦ do
      e ← at s.tabla posicion
      bs ← read_bytes s.mem (posicion * s.tamanio_entradas) (e.tamanio + 1)
      maps ← copiar_a_map clave bs s.lista_claves
      done (record s { lista_claves = maps })
  ]
