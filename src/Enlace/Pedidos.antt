-- ===== src/Enlace/Pedidos.antt =====
-- From send_message of the ESI to process_message_header_esi of the coordinator.
use tp_re_distinto_so.Base.{
  ℕ, List, drop, drop-past, drop-append, ◌≡◌, ◌<◌, refl, sym, ◌∙◌, ap, false, [], ◌∷◌, ◌++◌, Text,
  c_string, take, length, ltb, if◌then◌else◌, ◌==◌, All, All-take, take-past, take-length,
  Bool-cases, inl, inr, drop-length, arith,
}
use tp_re_distinto_so.Esi.Estado.{
  Operacion, no_valida, otra, get, set, store, Mensaje, mensaje, Respuesta,
}
use tp_re_distinto_so.Esi
use tp_re_distinto_so.Esi.Turno.{enviar_por}
use tp_re_distinto_so.Esi.Turno.Guion.{siempre}
use tp_re_distinto_so.Esi.Turno.Informe.{estado_de}
use tp_re_distinto_so.Enlace.Envios.{al_coordinator, pedidos, enviar_por-pedidos}
use tp_re_distinto_so.Coordinador.Estado.{Operation, Header, Estado}
use tp_re_distinto_so.Coordinador.Claves.{Dictionary}
use tp_re_distinto_so.Coordinador.Operaciones.{
  Hilo, Punto, texto_de, valor_de, resto_de, pedir, pedir_propia, empezar_get, empezar_set,
  empezar_store, abortar, process_message_header_esi,
}

-- A text of C has no NUL.
abbrev pub SinNul : Text → Type 0
SinNul k = All (λ c. (c == 0) ≡ false) k

pub c_string-SinNul : (k : Text) → SinNul k → c_string k ≡ k
unfolding c_string
c_string-SinNul [] h = refl
c_string-SinNul (c ∷ cs) h = rw (h.0, c_string-SinNul cs h.1) refl

-- The NUL ends the text, whatever follows.
pub c_string-nul : (k bs : Text) → SinNul k → c_string (k ++ 0 ∷ bs) ≡ k
unfolding c_string
c_string-nul [] bs h = refl
c_string-nul (c ∷ cs) bs h = rw (h.0, c_string-nul cs bs h.1) refl

-- The header as the coordinator reads it.
abbrev pub recibida : Mensaje → Header
recibida m = record { id = m.header.id; len = m.header.len; len2 = m.header.len2 }

-- The payload of a message with a key.
payload-lem : (k v : Text) → 0 < length k → (if ltb 0 (length k) then k ++ v else []) ≡ k ++ v
payload-lem k v h = ground (arith, h)

texto-leido :
    (id len2 : ℕ) (k v : Text)
    → SinNul k
    → texto_de (record { id = id; len = length k; len2 = len2 }) (k ++ v) ≡ k
unfolding texto_de
texto-leido id len2 k v h = ap c_string (take-length k v) ∙ c_string-SinNul k h

take-cut : (max : ℕ) (v : Text) → take (if ltb max (length v) then max else length v) v ≡ take max v
take-cut max v = elim (Bool-cases (ltb max (length v))) [
  | inl e ↦ rw e refl
  | inr e ↦ rw e (take-past (length v) v (omega arith) ∙ sym (take-past max v (ground (arith, e))))
]

drop-cut : (max : ℕ) (v : Text) → drop (if ltb max (length v) then max else length v) v ≡ drop max v
drop-cut max v = elim (Bool-cases (ltb max (length v))) [
  | inl e ↦ rw e refl
  | inr e ↦ rw e (drop-past (length v) v (omega arith) ∙ sym (drop-past max v (ground (arith, e))))
]

valor-leido :
    (id max : ℕ) (k v : Text)
    → SinNul v
    → valor_de max (record { id = id; len = length k; len2 = length v }) (k ++ v) ≡ take max v
unfolding valor_de
valor-leido id max k v h =
    ap (λ l. c_string (take (if ltb max (length v) then max else length v) l)) (drop-length k v)
    ∙ ap c_string (take-cut max v)
    ∙ c_string-SinNul (take max v) (All-take _ max v h)

-- The texts of an operation: a key that is not empty, and no NUL.
abbrev pub Escrita : Operacion → Type 0
Escrita no_valida = Unit
Escrita otra = Unit
Escrita (get k) = SinNul k × (0 < length k)
Escrita (store k) = SinNul k × (0 < length k)
Escrita (set k v) = SinNul k × (0 < length k) × SinNul v

module _ (dic : Dictionary) where
  -- What the coordinator is meant to begin for an operation; the value is cut at the storage size.
  pub comienzo : Operacion → Hilo → Estado → Punto
  comienzo no_valida t s = abortar 1 t s
  comienzo otra t s = record { hilo = t; estado = s }
  comienzo (get k) t s = pedir Operation.get t (record s { key = k })
  comienzo (set k v) t s =
      pedir_propia dic Operation.set t (record s { key = k; value = take s.max_storage_size v })
  comienzo (store k) t s = pedir_propia dic Operation.store t (record s { key = k })

  -- The messages of an operation, one after the other.
  pub leer : List Mensaje → Hilo → Estado → Punto
  leer [] t s = record { hilo = t; estado = s }
  leer (m ∷ ms) t s =
      let q = process_message_header_esi dic (recibida m) m.payload t s in leer ms q.hilo q.estado

  leer-pedidos :
      (op : Operacion) (t : Hilo) (s : Estado)
      → Escrita op
      → leer (pedidos op) t s ≡ comienzo op t s
  unfolding leer process_message_header_esi empezar_get empezar_set empezar_store comienzo mensaje
  leer-pedidos no_valida t s h = refl
  leer-pedidos otra t s h = refl
  leer-pedidos (get k) t s h =
      let n = texto-leido 21 0 k [] h.0 in rw (payload-lem k [] h.1, n) refl
  leer-pedidos (store k) t s h =
      let n = texto-leido 23 0 k [] h.0 in rw (payload-lem k [] h.1, n) refl
  leer-pedidos (set k v) t s h =
      let n = texto-leido 22 (length v) k v h.0 in
      let m = valor-leido 22 s.max_storage_size k v h.2 in rw (payload-lem k v h.1, n, m) refl

-- The bytes of a value that go beyond the storage.
abbrev pub sobra : ℕ → Operacion → List ℕ
sobra max no_valida = []
sobra max otra = []
sobra max (get k) = []
sobra max (store k) = []
sobra max (set k v) = drop max v

sin_leer :
    (op : Operacion) (max : ℕ)
    → Escrita op
    → All (λ m. resto_de max (recibida m) m.payload ≡ sobra max op) (pedidos op)
unfolding resto_de mensaje
sin_leer no_valida max h = (refl, tt)
sin_leer otra max h = tt
sin_leer (get k) max h = (rw (payload-lem k [] h.1) (drop-length k []), tt)
sin_leer (store k) max h = (rw (payload-lem k [] h.1) (drop-length k []), tt)
sin_leer (set k v) max h = (
  rw (payload-lem k v h.1)
      (drop-append k v (if ltb max (length v) then max else length v) _ refl ∙ drop-cut max v),
  tt,
)

-- If the sends succeed, and the texts of the operation have no NUL and its key is not empty: the ESI
-- sends the coordinator one message for a GET, SET or STORE and for a line that is no operation, and
-- nothing for another keyword. From it the coordinator reads just the key and the value, the latter
-- cut at the size of the storage, and begins the operation, or aborts the ESI for a line that is none;
-- what a value has beyond that size is left unread in the socket, and nothing else.
pub process_message_header_esi-pedido :
    (dic : Dictionary) (op : Operacion) (r : Respuesta) (e : Esi.Estado.Estado) (t : Hilo)
    (s : Estado)
    → Escrita op
    → (al_coordinator (estado_de (enviar_por siempre op r e)).enviados
        ≡ al_coordinator e.enviados ++ pedidos op)
      × (leer dic (pedidos op) t s ≡ comienzo dic op t s)
      × All
          (λ m. resto_de s.max_storage_size (recibida m) m.payload ≡ sobra s.max_storage_size op)
          (pedidos op)
process_message_header_esi-pedido dic op r e t s h =
    (enviar_por-pedidos op r e, leer-pedidos dic op t s h, sin_leer op s.max_storage_size h)
