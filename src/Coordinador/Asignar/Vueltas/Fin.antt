-- ===== src/Coordinador/Asignar/Vueltas/Fin.antt =====
-- The loop of assign_instance ends: each round that fails closes a connection that was down.
use tp_re_distinto_so.Base.{
  ℕ, zero, suc, ◌-◌, ◌≡◌, ◌≢◌, ◌≤◌, ◌<◌, refl, sym, ◌∙◌, ap, subst, Bool, true, false, ◌∷◌, Option,
  some, fault, waits, spent, ◌==◌, get_elem?, length, arith, ◌⊎◌, inl, inr, Sorting, Ensures,
  Ensures-done, Ensures-fault, Ensures-if, Ensures-option, Ensures->>=, bastar-if, bastar-elim,
  bastar-option, bastar->>=,
}
use tp_re_distinto_so.Coordinador.Estado.{Estado, Red, instancia_de}
use tp_re_distinto_so.Coordinador.Instancias.{disconnect_instance_in_list}
use tp_re_distinto_so.Coordinador.Claves.{
  Dictionary, cerrar, disconnect_socket, esta_caido, test_connection, find_by_key,
}
use tp_re_distinto_so.Coordinador.Asignar.{
  elegir_por, choose_instance, reintentar, asignar_nueva, asignar_vieja, assign_instance,
}
use tp_re_distinto_so.Coordinador.Asignar.Vueltas.{
  sockets, pendientes, Igual, get_elem?-sockets, length-sockets, largo, disconnect-Igual,
  disconnect-basta, pendientes-length, pendientes-baja, elegir-Igual, elegir-basta,
}

module _ (red : Red) where
  -- What is left to close.
  abbrev resto : Estado → ℕ
  resto s = pendientes red s.cerrados (sockets s.instances)

  instancia-en :
      (s : Estado) (p : ℕ)
      → Ensures (λ q. get_elem? (sockets s.instances) p ≡ some q.socket) (instancia_de s p)
  unfolding instancia_de
  instancia-en s p =
      Ensures-option (get_elem? s.instances p) fault _ (λ e. Ensures-fault)
        (λ q e. Ensures-done q (get_elem?-sockets s.instances p q e))

  instancia-basta : (s : Estado) (p : ℕ) → instancia_de s p ≢ spent
  unfolding instancia_de
  instancia-basta s p = bastar-option (get_elem? s.instances p) fault _ (λ e. cc) (λ q e k. cc)

  test-basta : (socket : ℕ) (s : Estado) → test_connection red socket s ≢ spent
  unfolding test_connection disconnect_socket
  test-basta socket s =
      bastar-if (esta_caido red socket s) _ _
        (λ e.
          bastar->>= {Q = λ t. Unit {0}} (disconnect_socket socket true s) _
            (disconnect-basta socket (cerrar socket s)) (record { value = λ a k. tt })
            (λ t h k. cc))
        (λ e k. cc)

  -- A test of a connection of the list that fails has closed it.
  test-resto :
      (p socket : ℕ) (s : Estado)
      → get_elem? (sockets s.instances) p ≡ some socket
      → Ensures
          (λ c.
            (length c.estado.instances ≡ length s.instances)
            × ((c.viva ≡ true) ⊎ (resto c.estado < resto s)))
          (test_connection red socket s)
  unfolding test_connection disconnect_socket esta_caido cerrar
  test-resto p socket s g =
      Ensures-if (esta_caido red socket s) _ _
        (λ e.
          Ensures->>= (disconnect_instance_in_list socket (cerrar socket s)) _
            (disconnect-Igual socket (cerrar socket s))
            (λ t h. Ensures-done _ (
              largo t.instances s.instances h.1,
              inr (
                  subst (λ n. n < resto s)
                    (sym (
                      ap (λ cs. pendientes red cs (sockets t.instances)) h.0
                      ∙ ap (pendientes red (socket ∷ s.cerrados)) h.1))
                    (pendientes-baja red p socket s.cerrados (sockets s.instances) g e)),
            )))
        (λ e. Ensures-done _ (refl, inl refl))

  resto-Igual : (s t : Estado) → Igual s t → resto t ≡ resto s
  resto-Igual s t h =
      ap (λ cs. pendientes red cs (sockets t.instances)) h.0 ∙ ap (pendientes red s.cerrados) h.1

  resto-length : (s : Estado) → resto s ≤ length s.instances
  resto-length s =
      let a = pendientes-length red s.cerrados (sockets s.instances) in
      let b = length-sockets s.instances in omega (arith, a, b)

  menos : (b : Bool) (n m : ℕ) → b ≡ false → ((b ≡ true) ⊎ (n < m)) → n < m
  menos b n m e (inl y) = absurd (let t : true ≡ false = sym y ∙ e in cc)
  menos b n m e (inr l) = l

  module _ (sorting : Sorting) where
    reintentar-basta :
        (fuel : ℕ) (i : Option ℕ) (s : Estado)
        → resto s < fuel
        → reintentar sorting red fuel i s ≢ spent
    unfolding reintentar choose_instance
    reintentar-basta zero i s h = absurd (omega (arith, h))
    reintentar-basta (suc fuel) i s h =
        bastar-option i fault _ (λ e. cc)
          (λ p e. bastar->>= (instancia_de s p) _ (instancia-basta s p) (instancia-en s p) (λ q g.
            bastar->>= (test_connection red q.socket s) _ (test-basta q.socket s)
              (test-resto p q.socket s g)
              (λ c w.
                bastar-elim c.viva _ _ (λ v k. cc)
                  (λ v.
                    bastar->>= (elegir_por sorting c.estado.algorithm false c.estado) _
                      (elegir-basta sorting c.estado.algorithm false c.estado)
                      (elegir-Igual sorting c.estado.algorithm false c.estado)
                      (λ o k.
                        let n = resto-Igual c.estado o.estado k in
                        let m = menos c.viva (resto c.estado) (resto s) v w.1 in
                        reintentar-basta fuel o.indice o.estado (omega (arith, n, m, h)))))))

    module _ (dic : Dictionary) where
      nueva-basta :
          (fuel : ℕ) (s : Estado)
          → length s.instances < fuel
          → asignar_nueva sorting red dic fuel s ≢ spent
      unfolding asignar_nueva choose_instance
      nueva-basta fuel s h =
          let u : Estado = record s { one_instance = s.one_instance - 1 } in
          bastar-if (s.one_instance == 0) waits _ (λ e k. cc)
            (λ e.
              bastar->>= (elegir_por sorting s.algorithm false u) _
                (elegir-basta sorting s.algorithm false u)
                (elegir-Igual sorting s.algorithm false u)
                (λ o k.
                  let n = resto-Igual u o.estado k in
                  let m = resto-length s in
                  bastar->>= {Q = λ d. Unit {0}} (reintentar sorting red fuel o.indice o.estado) _
                    (reintentar-basta fuel o.indice o.estado (omega (arith, n, m, h)))
                    (record { value = λ a b. tt }) (λ d w t. cc)))

      -- With more fuel than there are instances assign_instance does not run out of it: its loop ends, with
      -- a chosen instance, a fault or a wait, after at most as many failed rounds as there are instances.
      pub assign_instance-basta :
          (fuel : ℕ) (s : Estado)
          → length s.instances < fuel
          → assign_instance sorting red dic fuel s ≢ spent
      unfolding assign_instance asignar_vieja
      assign_instance-basta fuel s h =
          bastar-option (find_by_key dic s.instances s.key) _ _ (nueva-basta fuel s h) (λ p e.
            bastar->>= (instancia_de s p) _ (instancia-basta s p) (instancia-en s p) (λ q g.
              bastar-if q.is_active _ _
                (λ a.
                  bastar->>= (test_connection red q.socket s) _ (test-basta q.socket s)
                    (test-resto p q.socket s g)
                    (λ c w.
                      bastar-if c.viva _ _ (λ v k. cc)
                        (λ v. nueva-basta fuel c.estado (omega (arith, w.0, h)))))
                (λ a. nueva-basta fuel s h)))
