-- ===== src/Enlace/Valores.antt =====
-- From host_instance of the coordinator to procesarHeader of the instance, and back.
use tp_re_distinto_so.Base.{
  ℕ, ◌+◌, ◌≡◌, refl, sym, ◌∙◌, ap, List, [], ◌∷◌, ◌++◌, some, Text, c_string, take, drop, length,
  Commons, done, take-length, drop-length, length-append, append-nil,
}
use tp_re_distinto_so.Coordinador.Estado.{Header, Estado, enviar}
use tp_re_distinto_so.Coordinador.Hilos.{cabecera_set, carga_set, caso_status, mandar, post_result}
use tp_re_distinto_so.Coordinador.Status.{terminar_status}
use tp_re_distinto_so.Instancia
use tp_re_distinto_so.Instancia.Estado.{Content, Sistema}
use tp_re_distinto_so.Instancia.Memoria.{get_value}
use tp_re_distinto_so.Instancia.Procesar.{deserializar, recibir_clave, procesar_header}
use tp_re_distinto_so.Instancia.Procesar.Respuestas.{status_answer}
use tp_re_distinto_so.Enlace.Pedidos.{SinNul, c_string-nul}

-- The header as the other process reads it.
abbrev pub a_instancia : Header → Instancia.Estado.Header
a_instancia h = record { id = h.id; len_clave = h.len; len_valor = h.len2 }

abbrev pub a_coordinador : Instancia.Estado.Header → Header
a_coordinador h = record { id = h.id; len = h.len_clave; len2 = h.len_valor }

-- The key with its NUL is as long as the header says.
primera_parte :
    (k bs : Text)
    → (take (length k + 1) ((k ++ 0 ∷ []) ++ bs) ≡ k ++ 0 ∷ [])
      × (drop (length k + 1) ((k ++ 0 ∷ []) ++ bs) ≡ bs)
primera_parte k bs =
    let n : length (k ++ 0 ∷ []) ≡ length k + 1 = length-append k (0 ∷ []) in
    (
      ap (λ m. take m ((k ++ 0 ∷ []) ++ bs)) (sym n) ∙ take-length (k ++ 0 ∷ []) bs,
      ap (λ m. drop m ((k ++ 0 ∷ []) ++ bs)) (sym n) ∙ drop-length (k ++ 0 ∷ []) bs,
    )

take-con_nul : (k : Text) → take (length k + 1) (k ++ 0 ∷ []) ≡ k ++ 0 ∷ []
take-con_nul k =
    ap (λ l. take (length k + 1) l) (sym (append-nil (k ++ 0 ∷ []))) ∙ (primera_parte k []).0

-- What the coordinator sends for a SET, the instance reads as the same key and value, if they have no
-- NUL.
pub deserializar-carga_set :
    (key value : Text)
    → SinNul key
    → SinNul value
    → deserializar (a_instancia (cabecera_set key value)) (carga_set key value)
      ≡ record { clave = key; valor = value }
unfolding deserializar cabecera_set carga_set
deserializar-carga_set key value h k =
    let p = primera_parte key (value ++ 0 ∷ []) in
    rw (p.0, p.1, take-con_nul value, c_string-nul key [] h, c_string-nul value [] k) refl

-- The value that an instance answers to STATUS is not looked at: the coordinator loses the key, keeps
-- the value that `message` had before, and answers the scheduler with that one.
pub status-stale :
    (commons : Commons) (sistema : Sistema) (fuel n v socket consola : ℕ) (carga : List ℕ)
    (i : Instancia.Estado.Estado) (s : Estado) (bs name : List ℕ)
    → get_value commons i (recibir_clave (record { id = 15; len_clave = n; len_valor = v }) carga)
      ≡ done (some bs)
    → let r : Instancia.Estado.Header = record {
      id = 13;
      len_clave = 0;
      len_valor = length (c_string bs);
    } in
      let s' = caso_status socket (a_coordinador r) (c_string bs) s in
      (procesar_header commons sistema fuel
          (record { id = 15; len_clave = n; len_valor = v })
          carga
          i
        ≡ done (record i {
          enviados =
              i.enviados ++ Instancia.Estado.header r ∷ Instancia.Estado.bytes (c_string bs) ∷ [];
        }))
      × (s'.key ≡ [])
      × (s'.value ≡ s.value)
      × (terminar_status consola name s'
          ≡ mandar consola 37 (length name) (length s.value) (name ++ s.value) s')
unfolding caso_status c_string terminar_status post_result mandar enviar
status-stale commons sistema fuel n v socket consola carga i s bs name got =
    (status_answer commons sistema fuel n v carga i (some bs) got, refl, refl, refl)
