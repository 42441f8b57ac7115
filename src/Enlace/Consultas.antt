-- ===== src/Enlace/Consultas.antt =====
-- From operation_status of the coordinator to get_key_status of the console.
use tp_re_distinto_so.Base.{
  ℕ, ◌≡◌, refl, ◌∙◌, ap, Bool, true, false, [], ◌∷◌, ◌++◌, Text, c_string, take, drop, length,
  take-length, drop-length, take-past, if◌then◌else◌, arith,
}
use tp_re_distinto_so.Coordinador.Estado.{Estado}
use tp_re_distinto_so.Coordinador.Hilos.{mandar}
use tp_re_distinto_so.Coordinador.Status.{terminar_status}
use tp_re_distinto_so.Planificador.Consola.Comandos.{
  Respuesta, Impreso, sin_valor, con_valor, Pantalla, imprimir, mostrar_valor,
}
use tp_re_distinto_so.Enlace.Pedidos.{SinNul, c_string-SinNul}

-- The text that its length cuts from what comes.
nombre-leido : (k v : Text) → SinNul k → c_string (take (length k) (k ++ v)) ≡ k
nombre-leido k v h = ap c_string (take-length k v) ∙ c_string-SinNul k h

valor-leido : (k v : Text) → SinNul v → c_string (take (length v) (drop (length k) (k ++ v))) ≡ v
valor-leido k v h =
    ap (λ l. c_string (take (length v) l)) (drop-length k v)
    ∙ ap c_string (take-past (length v) v (omega arith))
    ∙ c_string-SinNul v h

module _ {F : Type 0} (socket : ℕ) (name : Text) (s : Estado) (p : Pantalla F)
    (h : SinNul name) where
  -- What the coordinator sends is a header with its bytes, and the console prints `is` for it.
  abbrev pub Muestra : Estado → (Respuesta → Pantalla F) → Impreso → Type 0
  Muestra t mostrar i =
      (r : Respuesta) × (t ≡ mandar socket r.id r.len r.len2 r.payload s)
      × (mostrar r ≡ imprimir (i ∷ []) p)

  segun_valor :
      (b : Bool)
      → SinNul s.value
      → Muestra
          (if b
            then mandar socket 37 (length name) (length s.value) (name ++ s.value) s
            else mandar socket 38 (length name) 0 name s)
          (λ r. mostrar_valor r p)
          (if b then con_valor name s.value else sin_valor name)
  unfolding mostrar_valor
  segun_valor true k = (
    record { id = 37; len = length name; len2 = length s.value; payload = name ++ s.value },
    refl,
    (let a = nombre-leido name s.value h in
        let b = valor-leido name s.value k in
        ap (λ i. imprimir (i ∷ []) p)
          (ap
              (λ n.
                con_valor n
                  (c_string (take (length s.value) (drop (length name) (name ++ s.value)))))
              a
            ∙ ap (con_valor name) b)),
  )
  segun_valor false k = (
    record { id = 38; len = length name; len2 = 0; payload = name },
    refl,
    ap (λ n. imprimir (sin_valor n ∷ []) p)
        (ap c_string (take-past (length name) name (omega arith)) ∙ c_string-SinNul name h),
  )

  -- After STATUS of a key that an instance has, the console prints the name of the instance, and the
  -- value that the message of the coordinator holds if has_value is set, if the texts have no NUL.
  pub terminar_status-impreso :
      SinNul s.value
      → Muestra
          (terminar_status socket name s)
          (λ r. mostrar_valor r p)
          (if s.has_value then con_valor name s.value else sin_valor name)
  unfolding terminar_status
  terminar_status-impreso k = segun_valor s.has_value k
