-- ===== src/Instancia/Procesar/Respuestas.antt =====
-- What procesarHeader sends to the coordinator.
use tp_re_distinto_so.Base.{
  ℕ, ◌≡◌, List, [], ◌∷◌, ◌++◌, Option, none, some, c_string, Commons, done, length, append_assoc,
}
use tp_re_distinto_so.Instancia.Estado.{Header, Estado, Sistema, header, bytes}
use tp_re_distinto_so.Instancia.Tabla.{consultar_tabla}
use tp_re_distinto_so.Instancia.Memoria.{get_value}
use tp_re_distinto_so.Instancia.Claves.{enviar, send_header, send_header_with_length, store_key}
use tp_re_distinto_so.Instancia.Procesar.{procesar_header, recibir_clave, responder_status}

abbrev pub cabecera : ℕ → ℕ → ℕ → Header
cabecera id n v = record { id = id; len_clave = n; len_valor = v }

module _ (commons : Commons) (sistema : Sistema) (fuel : ℕ) where
  -- A STORE of a key that is not in the table changes nothing but is answered twice, with 15 and then
  -- with 12, the code of success.
  pub store_answers_twice :
      (n v : ℕ) (carga : List ℕ) (s : Estado)
      → consultar_tabla commons s.tabla (recibir_clave (cabecera 14 n v) carga) ≡ none
      → procesar_header commons sistema fuel (cabecera 14 n v) carga s
        ≡ done (record s {
          enviados = s.enviados ++ header (cabecera 15 0 0) ∷ header (cabecera 12 0 0) ∷ [];
        })
  unfolding procesar_header store_key send_header enviar
  store_answers_twice n v carga s absent = rw (absent, store_key, append_assoc s.enviados)

  -- A STATUS leaves the state as it is but for the answer: 19 for a key that is not in the table; for
  -- one whose value is read, 13 with the first length 0 and the length of the value as the second,
  -- and then the value up to its first NUL.
  pub status_answer :
      (n v : ℕ) (carga : List ℕ) (s : Estado) (value : Option (List ℕ))
      → get_value commons s (recibir_clave (cabecera 15 n v) carga) ≡ done value
      → procesar_header commons sistema fuel (cabecera 15 n v) carga s
        ≡ done (record s {
          enviados = s.enviados ++ elim value [
            | none ↦ header (cabecera 19 0 0) ∷ []
            | some bs ↦ header (cabecera 13 0 (length (c_string bs))) ∷ bytes (c_string bs) ∷ []
          ];
        })
  unfolding procesar_header responder_status send_header_with_length enviar
  status_answer n v carga s none got = rw got
  status_answer n v carga s (some bs) got = rw (got, append_assoc s.enviados)
