-- ===== src/Coordinador/Asignar/Conserva/Asigna.antt =====
-- assign_instance tells one instance to work; save_on_instance does if it succeeds.
use tp_re_distinto_so.Base.{
  ℕ, zero, suc, ◌+◌, ◌-◌, ◌≡◌, refl, Bool, true, false, Option, fault, waits, Ensures, Ensures-elim,
  Ensures-mono, Ensures-done, Ensures-fault, Ensures-waits, Ensures-spent, Ensures-if,
  Ensures-option, Ensures->>=, ◌==◌, get_elem?, length, ◌<◌, length-update_at, get_elem?-lt, arith,
  ◌⊎◌, inl, inr, Sorting,
}
use tp_re_distinto_so.Coordinador.Estado.{
  Algorithm, el, lsu, ke, Estado, Red, instancia_de, post_start,
}
use tp_re_distinto_so.Coordinador.Turno.{choose_by_counter}
use tp_re_distinto_so.Coordinador.Espacio.{choose_by_space}
use tp_re_distinto_so.Coordinador.Claves.{
  Dictionary, Guardado, disconnect_socket, esta_caido, test_connection, guardar_en, guardar_por,
  find_by_key, find_by_key_and_active, save_on_instance,
}
use tp_re_distinto_so.Coordinador.Asignar.{
  poner_clave, elegir_por, choose_instance, reintentar, asignar_nueva, asignar_vieja,
  assign_instance,
}
use tp_re_distinto_so.Coordinador.Asignar.Conserva.{
  total_start-update_at, total_start-same_at, Conserva, Conserva-refl, Conserva-trans,
  Conserva-instances, Conserva-otros, Ensures-mas, disconnect_socket-Conserva,
}

module _ (red : Red) where
  pub test_connection-Conserva :
      (socket : ℕ) (s : Estado)
      → Ensures (λ c. Conserva 0 s c.estado) (test_connection red socket s)
  unfolding test_connection
  test_connection-Conserva socket s =
      Ensures-if (esta_caido red socket s) _ _
        (λ e.
          Ensures->>= (disconnect_socket socket true s) _ (disconnect_socket-Conserva socket s)
            (λ t c. Ensures-done _ c))
        (λ e. Ensures-done _ (Conserva-refl s))

pub instancia_de-lt :
    (s : Estado) (p : ℕ) → Ensures (λ q. p < length s.instances) (instancia_de s p)
unfolding instancia_de
instancia_de-lt s p =
    Ensures-option (get_elem? s.instances p) fault _ (λ e. Ensures-fault)
      (λ q e. Ensures-done q (get_elem?-lt s.instances p q e))

pub post_start-Conserva :
    (p : ℕ) (s : Estado) → p < length s.instances → Conserva 1 s (post_start p s)
unfolding post_start
post_start-Conserva p s h =
    Conserva-instances 1 s _ (length-update_at p _ s.instances)
      (total_start-update_at _ 1 p s.instances (λ r. refl) h)

poner_clave-Conserva : (dic : Dictionary) (p : ℕ) (s : Estado) → Conserva 0 s (poner_clave dic p s)
unfolding poner_clave
poner_clave-Conserva dic p s =
    Conserva-instances 0 s _
      (length-update_at p (λ q. record q { keys = dic.put q.keys s.key }) s.instances)
      (omega (
        arith,
        total_start-same_at (λ q. record q { keys = dic.put q.keys s.key }) p s.instances
            (λ r. refl),
      ))

-- The semaphore of the instances does not matter.
pub desde :
    (s : Estado) (n : ℕ) (t : Estado)
    → Conserva 0 (record s { one_instance = n }) t
    → Conserva 0 s t
desde s n t c = record {
  operation = c.operation;
  esi = c.esi;
  response = c.response;
  result = c.result;
  key = c.key;
  cuantas = c.cuantas;
  starts = c.starts;
}

-- The chosen instance gets the key and is told to work.
avisar-Conserva :
    (dic : Dictionary) (p : ℕ) (s : Estado)
    → p < length s.instances
    → let s' = poner_clave dic p s in
      Conserva 1 s (post_start p (record s' { one_instance = s'.one_instance + 1 }))
avisar-Conserva dic p s h =
    let s' = poner_clave dic p s in
    let s'' : Estado = record s' { one_instance = s'.one_instance + 1 } in
    let c = poner_clave-Conserva dic p s in
    Conserva-trans 0 1 s s'' _ (Conserva-otros 0 s s' s'' refl refl refl refl refl refl c)
      (post_start-Conserva p s'' (omega (arith, c.cuantas)))

module _ (sorting : Sorting) where
  pub elegir_por-Conserva :
      (g : Algorithm) (simulate : Bool) (s : Estado)
      → Ensures (λ o. Conserva 0 s o.estado) (elegir_por sorting g simulate s)
  unfolding elegir_por
  elegir_por-Conserva el simulate s =
      Ensures->>= {Q = λ e. Unit {0}} (choose_by_counter simulate s.instances s.instance_pointer) _
        (record { value = λ a e. tt })
        (λ e h.
          Ensures-done _ (Conserva-otros 0 s s _ refl refl refl refl refl refl (Conserva-refl s)))
  elegir_por-Conserva lsu simulate s =
      Ensures->>= {Q = λ e. Unit {0}}
        (choose_by_space sorting simulate s.instances s.instance_pointer) _
        (record { value = λ a e. tt })
        (λ e h.
          Ensures-done _ (Conserva-otros 0 s s _ refl refl refl refl refl refl (Conserva-refl s)))
  elegir_por-Conserva ke simulate s = Ensures-done _ (Conserva-refl s)

  module _ (red : Red) where
    -- The instance that is chosen in the end is in the list.
    pub reintentar-Conserva :
        (fuel : ℕ) (i : Option ℕ) (s : Estado)
        → Ensures
            (λ d. Conserva 0 s d.estado × (d.indice < length d.estado.instances))
            (reintentar sorting red fuel i s)
    unfolding reintentar choose_instance
    reintentar-Conserva zero i s = Ensures-spent
    reintentar-Conserva (suc fuel) i s =
        Ensures-option i fault _ (λ e. Ensures-fault)
          (λ p e. Ensures->>= (instancia_de s p) _ (instancia_de-lt s p) (λ q lt.
            Ensures->>= (test_connection red q.socket s) _ (test_connection-Conserva red q.socket s)
              (λ c k.
                Ensures-elim c.viva _ _ (λ v. Ensures-done _ (k, omega (arith, k.cuantas)))
                  (λ v.
                    Ensures->>= (elegir_por sorting c.estado.algorithm false c.estado) _
                      (elegir_por-Conserva c.estado.algorithm false c.estado)
                      (λ o k'.
                        Ensures-mono _
                          (λ d x. (
                            Conserva-trans 0 0 s o.estado d.estado
                                (Conserva-trans 0 0 s c.estado o.estado k k') x.0,
                            x.1,
                          ))
                          (reintentar-Conserva fuel o.indice o.estado))))))

    module _ (dic : Dictionary) where
      pub asignar_nueva-Conserva :
          (fuel : ℕ) (s : Estado) → Ensures (Conserva 1 s) (asignar_nueva sorting red dic fuel s)
      unfolding asignar_nueva choose_instance
      asignar_nueva-Conserva fuel s =
          Ensures-if (s.one_instance == 0) waits _ (λ e. Ensures-waits)
            (λ e.
              Ensures->>= (elegir_por sorting s.algorithm false _) _
                (elegir_por-Conserva s.algorithm false
                  (record s { one_instance = s.one_instance - 1 }))
                (λ o k.
                  Ensures->>= (reintentar sorting red fuel o.indice o.estado) _
                    (reintentar-Conserva fuel o.indice o.estado)
                    (λ d x. Ensures-done _ (
                      Conserva-trans 0 1 s d.estado _
                        (Conserva-trans 0 0 s o.estado d.estado
                          (desde s (s.one_instance - 1) o.estado k) x.0)
                        (avisar-Conserva dic d.indice d.estado x.1)))))

      pub assign_instance-Conserva :
          (fuel : ℕ) (s : Estado) → Ensures (Conserva 1 s) (assign_instance sorting red dic fuel s)
      unfolding assign_instance asignar_vieja
      assign_instance-Conserva fuel s =
          Ensures-option (find_by_key dic s.instances s.key) _ _
            (λ e. asignar_nueva-Conserva fuel s)
            (λ p e. Ensures->>= (instancia_de s p) _ (instancia_de-lt s p) (λ q lt.
              Ensures-if q.is_active _ _
                (λ a.
                  Ensures->>= (test_connection red q.socket s) _
                    (test_connection-Conserva red q.socket s)
                    (λ c k.
                      Ensures-if c.viva _ _
                        (λ v. Ensures-done _ (
                          Conserva-trans 0 1 s c.estado _ k
                            (post_start-Conserva p c.estado (omega (arith, k.cuantas)))))
                        (λ v.
                          Ensures-mas 0 1 s c.estado _ k (asignar_nueva-Conserva fuel c.estado))))
                (λ a. asignar_nueva-Conserva fuel s)))

-- save_on_instance tells one instance to work if it succeeds, and none if it does not.
abbrev pub GuardadoBien : Estado → Guardado → Type 0
GuardadoBien s g =
    ((g.ok ≡ true) × Conserva 1 s g.estado) ⊎ ((g.ok ≡ false) × Conserva 0 s g.estado)

module _ (red : Red) where
  guardar_en-Bien : (p : ℕ) (s : Estado) → Ensures (GuardadoBien s) (guardar_en red p s)
  unfolding guardar_en
  guardar_en-Bien p s = Ensures->>= (instancia_de s p) _ (instancia_de-lt s p) (λ q lt.
      Ensures->>= (test_connection red q.socket s) _ (test_connection-Conserva red q.socket s)
        (λ c k.
          Ensures-if c.viva _ _
            (λ v. Ensures-done _ (
              inl (
                refl,
                Conserva-trans 0 1 s c.estado _ k
                    (post_start-Conserva p c.estado (omega (arith, k.cuantas))),
              )))
            (λ v. Ensures-done _ (inr (refl, k)))))

  pub save_on_instance-Bien :
      (dic : Dictionary) (s : Estado) → Ensures (GuardadoBien s) (save_on_instance red dic s)
  unfolding save_on_instance guardar_por
  save_on_instance-Bien dic s =
      Ensures-option (find_by_key dic s.instances s.key) fault _ (λ e. Ensures-fault)
        (λ p e. Ensures->>= (instancia_de s p) _ (instancia_de-lt s p) (λ q lt.
          Ensures-if q.is_active _ _ (λ a. guardar_en-Bien p s)
            (λ a.
              Ensures-option (find_by_key_and_active dic s.instances s.key) _ _
                (λ n. Ensures-done _ (inr (refl, Conserva-refl s)))
                (λ otra n. guardar_en-Bien otra s))))
