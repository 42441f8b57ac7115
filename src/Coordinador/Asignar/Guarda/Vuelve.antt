-- ===== src/Coordinador/Asignar/Guarda/Vuelve.antt =====
-- assign_instance returns under EL when the connections are up.
use tp_re_distinto_so.Base.{
  ℕ, suc, ◌-◌, ◌≡◌, ◌<◌, refl, sym, ◌∙◌, ap, subst, Bool, true, false, Option, none, some, Outcome,
  done, fault, waits, ◌>>=◌, if◌then◌else◌, ◌==◌, get_elem?, find_index, length, arith, Sorting,
}
use tp_re_distinto_so.Coordinador.Estado.{Algorithm, el, Instance, Estado, Red, instancia_de}
use tp_re_distinto_so.Coordinador.Claves.{
  Dictionary, Conexion, esta_caido, test_connection, tiene_clave, find_by_key,
}
use tp_re_distinto_so.Coordinador.Turno.{Eleccion, choose_by_counter}
use tp_re_distinto_so.Coordinador.Turno.Vuelta.{choose_by_counter-Elegida}
use tp_re_distinto_so.Coordinador.Asignar.{
  Destino, elegir_por, choose_instance, reintentar, asignar_nueva, asignar_vieja, assign_instance,
}
use tp_re_distinto_so.Coordinador.Asignar.Guarda.{Guarda, find_index-some, assign_instance-Guarda}

-- The outcome is a value.
abbrev Vuelve : Outcome Estado → Type 0
Vuelve o = (t : Estado) × (o ≡ done t)

si-Vuelve :
    (b : Bool) (m n : Outcome Estado)
    → (b ≡ true → Vuelve m)
    → (b ≡ false → Vuelve n)
    → Vuelve (if b then m else n)
si-Vuelve true m n h k = h refl
si-Vuelve false m n h k = k refl

tras_done {ℓ} :
    {A : Type ℓ} (m : Outcome A) (f : A → Outcome Estado) (a : A)
    → m ≡ done a
    → Vuelve (f a)
    → Vuelve (m >>= f)
tras_done m f a e h = subst (λ x. Vuelve (x >>= f)) (sym e) h

opcion-Vuelve :
    (o : Option ℕ) (m : Outcome Estado) (f : ℕ → Outcome Estado)
    → Vuelve m
    → ((p : ℕ) → o ≡ some p → Vuelve (f p))
    → Vuelve (elim o [ none ↦ m | some p ↦ f p ])
opcion-Vuelve none m f h k = h
opcion-Vuelve (some p) m f h k = k p refl

instancia-es :
    (s : Estado) (p : ℕ) (q : Instance)
    → get_elem? s.instances p ≡ some q
    → instancia_de s p ≡ done q
unfolding instancia_de
instancia-es s p q g =
    ap (λ o. elim o as (λ x. Outcome Instance) [ none ↦ fault | some r ↦ done r ]) g

module _ (red : Red) (arriba : (socket : ℕ) → red.caido socket ≡ false) where
  test-arriba :
      (socket : ℕ) (s : Estado)
      → test_connection red socket s ≡ done (record { viva = true; estado = s })
  unfolding test_connection esta_caido
  test-arriba socket s = rw (arriba socket) refl

  module _ (sorting : Sorting) where
    -- The first choice is taken.
    reintentar-done :
        (fuel i : ℕ) (q : Instance) (s : Estado)
        → get_elem? s.instances i ≡ some q
        → reintentar sorting red (suc fuel) (some i) s ≡ done (record { indice = i; estado = s })
    unfolding reintentar
    reintentar-done fuel i q s g =
        let seguir = λ (c : Conexion). elim c.viva as (λ b. Outcome Destino) [
          | true ↦ done (record { indice = i; estado = c.estado })
          | false ↦
              (choose_instance sorting false c.estado >>= λ e.
              reintentar sorting red fuel e.indice e.estado)
        ] in
        ap (λ m. m >>= λ q'. test_connection red q'.socket s >>= seguir) (instancia-es s i q g)
        ∙ ap (λ m. m >>= seguir) (test-arriba q.socket s)

    elegir-el :
        (g : Algorithm) (s : Estado) (e : Eleccion)
        → g ≡ el
        → choose_by_counter false s.instances s.instance_pointer ≡ done e
        → elegir_por sorting g false s
          ≡ done (record {
            indice = some e.elegida;
            estado = record s { instance_pointer = e.instance_pointer };
          })
    unfolding elegir_por
    elegir-el g s e a h =
        ap (λ g. elegir_por sorting g false s) a
        ∙ ap
            (λ m. m >>= λ e. done (record {
              indice = some e.elegida;
              estado = record s { instance_pointer = e.instance_pointer };
            }))
            h

    module _ (dic : Dictionary) (fuel : ℕ) where
      nueva-Vuelve :
          (s : Estado)
          → s.algorithm ≡ el
          → 0 < s.one_instance
          → s.instance_pointer < length s.instances
          → Vuelve (asignar_nueva sorting red dic (suc fuel) s)
      unfolding asignar_nueva choose_instance
      nueva-Vuelve s a o l =
          let u : Estado = record s { one_instance = s.one_instance - 1 } in
          let (e, h, r, b) = choose_by_counter-Elegida false s.instances s.instance_pointer l in
          let v : Estado = record u { instance_pointer = e.instance_pointer } in
          si-Vuelve (s.one_instance == 0) waits _ (λ z. absurd (ground (arith, z, o)))
            (λ z.
              tras_done _ _ _ (elegir-el s.algorithm u e a h) (
                tras_done _ _ _ (reintentar-done fuel e.elegida r.instancia v r.en_lista)
                  (_, refl)))

      vieja-Vuelve :
          (p : ℕ) (q : Instance) (s : Estado)
          → get_elem? s.instances p ≡ some q
          → s.algorithm ≡ el
          → 0 < s.one_instance
          → s.instance_pointer < length s.instances
          → Vuelve (asignar_vieja sorting red dic (suc fuel) p s)
      unfolding asignar_vieja
      vieja-Vuelve p q s g a o l = tras_done _ _ _ (instancia-es s p q g) (
          si-Vuelve q.is_active _ _ (λ y. tras_done _ _ _ (test-arriba q.socket s) (_, refl))
            (λ n. nueva-Vuelve s a o l))

      assign_instance-Vuelve :
          (s : Estado)
          → s.algorithm ≡ el
          → 0 < s.one_instance
          → s.instance_pointer < length s.instances
          → Vuelve (assign_instance sorting red dic (suc fuel) s)
      unfolding assign_instance find_by_key
      assign_instance-Vuelve s a o l =
          opcion-Vuelve (find_index (tiene_clave dic s.key) s.instances) _ _ (nueva-Vuelve s a o l)
            (λ p e.
              let (q, g, h) = find_index-some (tiene_clave dic s.key) s.instances p e in
              vieja-Vuelve p q s g a o l)

      -- Under EL, with a free semaphore, the pointer in the list and no connection that is down,
      -- assign_instance returns, with one round of fuel or more, and then an instance of the list has the
      -- key of the message in its dictionary and is told to work.
      pub assign_instance-Guarda_el :
          (s : Estado)
          → s.algorithm ≡ el
          → 0 < s.one_instance
          → s.instance_pointer < length s.instances
          → (t : Estado) × (assign_instance sorting red dic (suc fuel) s ≡ done t) × Guarda dic s t
      assign_instance-Guarda_el s a o l =
          let (t, e) = assign_instance-Vuelve s a o l in
          (t, e, (assign_instance-Guarda dic red sorting (suc fuel) s).value t e)
