-- ===== src/Coordinador/Asignar/Guarda.antt =====
-- After a GET an instance has the key, so that save_on_instance finds it.
pub mod Vuelve
use tp_re_distinto_so.Base.{
  ℕ, zero, suc, ◌+◌, ◌-◌, ◌≡◌, ◌<◌, refl, sym, ◌∙◌, ap, subst, Bool, true, false, not, ◌||◌, List,
  [], ◌∷◌, Option, none, some, Outcome, done, fault, waits, ◌>>=◌, if◌then◌else◌, ◌==◌, get_elem?,
  get_elem?-in, update_at, find_index, length, arith, Bool-cases, inl, inr, ◌⊎◌, Sorting, Ensures,
  Ensures-done, Ensures-fault, Ensures-waits, Ensures-if, Ensures-mono, Ensures-option, Ensures->>=,
}
use tp_re_distinto_so.Coordinador.Estado.{
  Algorithm, el, Instance, Estado, Red, instancia_de, post_start,
}
use tp_re_distinto_so.Coordinador.Claves.{
  Dictionary, Conexion, esta_caido, test_connection, disconnect_socket, tiene_clave, find_by_key,
}
use tp_re_distinto_so.Coordinador.Turno.{Eleccion, choose_by_counter}
use tp_re_distinto_so.Coordinador.Turno.Vuelta.{Elegida, choose_by_counter-Elegida}
use tp_re_distinto_so.Coordinador.Asignar.{
  Opcion, Destino, poner_clave, elegir_por, choose_instance, reintentar, asignar_nueva,
  asignar_vieja, assign_instance,
}
use tp_re_distinto_so.Coordinador.Asignar.Conserva.{Conserva, Conserva-trans}
use tp_re_distinto_so.Coordinador.Asignar.Conserva.Asigna.{
  desde, elegir_por-Conserva, reintentar-Conserva, test_connection-Conserva,
}

get_elem?-update_at :
    (f : Instance → Instance) (xs : List Instance) (p : ℕ) (q : Instance)
    → get_elem? xs p ≡ some q
    → get_elem? (update_at p f xs) p ≡ some (f q)
get_elem?-update_at f [] p q e = cc
get_elem?-update_at f (x ∷ xs) zero q e = let x-q : x ≡ q = cc in ap (λ r. some (f r)) x-q
get_elem?-update_at f (x ∷ xs) (suc p) q e = get_elem?-update_at f xs p q e

indice-cases :
    (b : Bool) (o : Option ℕ) (p : ℕ)
    → (if b then some 0 else elim o [ none ↦ none | some i ↦ some (suc i) ]) ≡ some p
    → ((b ≡ true) × (p ≡ 0)) ⊎ ((i : ℕ) × (o ≡ some i) × (p ≡ suc i))
indice-cases true o p e = inl (refl, (let z : 0 ≡ p = cc in sym z))
indice-cases false none p e = cc
indice-cases false (some i) p e = inr (i, refl, (let z : suc i ≡ p = cc in sym z))

pub find_index-some :
    (t : Instance → Bool) (xs : List Instance) (p : ℕ)
    → find_index t xs ≡ some p
    → (q : Instance) × (get_elem? xs p ≡ some q) × (t q ≡ true)
find_index-some t [] p e = cc
find_index-some t (x ∷ xs) p e = elim (indice-cases (t x) (find_index t xs) p e) [
  | inl (y, z) ↦ (x, ap (get_elem? (x ∷ xs)) z, y)
  | inr (i, z, k) ↦
      let (q, g, h) = find_index-some t xs i z in (q, ap (get_elem? (x ∷ xs)) k ∙ g, h)
]

instancia-leida :
    (s : Estado) (p : ℕ) → Ensures (λ r. get_elem? s.instances p ≡ some r) (instancia_de s p)
unfolding instancia_de
instancia-leida s p =
    Ensures-option (get_elem? s.instances p) fault _ (λ e. Ensures-fault) (λ q e. Ensures-done q e)

-- The instance p has the key of the message and is told to work.
pub record Guarda (dic : Dictionary) (s t : Estado) : Type 0 where
  pub indice : ℕ
  pub instancia : Instance
  pub en : get_elem? t.instances indice ≡ some instancia
  pub clave : dic.has_key instancia.keys s.key ≡ true
  pub avisada : 0 < instancia.start

module _ (dic : Dictionary) where
  post_start-Guarda :
      (p : ℕ) (q : Instance) (s t : Estado)
      → get_elem? t.instances p ≡ some q
      → dic.has_key q.keys s.key ≡ true
      → Guarda dic s (post_start p t)
  unfolding post_start
  post_start-Guarda p q s t e h = record {
    indice = p;
    instancia = record q { start = q.start + 1 };
    en = get_elem?-update_at (λ r. record r { start = r.start + 1 }) t.instances p q e;
    clave = h;
    avisada = omega arith;
  }

  has_key-put_same : (d : List (List ℕ)) (k : List ℕ) → dic.has_key (dic.put d k) k ≡ true
  has_key-put_same d k = dic.has_key-put d k k ∙ ap (λ b. b || dic.has_key d k) (dic.same_refl k)

  module _ (red : Red) (sorting : Sorting) where
    nueva-Guarda :
        (fuel : ℕ) (s : Estado) → Ensures (Guarda dic s) (asignar_nueva sorting red dic fuel s)
    unfolding asignar_nueva choose_instance poner_clave
    nueva-Guarda fuel s =
        let u : Estado = record s { one_instance = s.one_instance - 1 } in
        Ensures-if (s.one_instance == 0) waits _ (λ e. Ensures-waits)
          (λ e.
            Ensures->>= (elegir_por sorting s.algorithm false u) _
              (elegir_por-Conserva sorting s.algorithm false u)
              (λ o k.
                Ensures->>= (reintentar sorting red fuel o.indice o.estado) _
                  (reintentar-Conserva sorting red fuel o.indice o.estado)
                  (λ d x.
                    let (q, g) = get_elem?-in d.estado.instances d.indice x.1 in
                    let f = λ (r : Instance). record r { keys = dic.put r.keys d.estado.key } in
                    let misma : d.estado.key ≡ s.key = x.0.key ∙ k.key in
                    Ensures-done _ (
                      post_start-Guarda d.indice (f q) s _
                        (get_elem?-update_at f d.estado.instances d.indice q g)
                        (subst (λ c. dic.has_key (f q).keys c ≡ true) misma
                          (has_key-put_same q.keys d.estado.key))))))

    intacta :
        (socket : ℕ) (s : Estado)
        → Ensures (λ c. c.viva ≡ true → c.estado ≡ s) (test_connection red socket s)
    unfolding test_connection
    intacta socket s =
        Ensures-if (esta_caido red socket s) _ _
          (λ e.
            Ensures->>= {Q = λ t. Unit {0}} (disconnect_socket socket true s) _
              (record { value = λ a b. tt }) (λ t h. Ensures-done _ (λ k. cc)))
          (λ e. Ensures-done _ (λ k. refl))

    -- A connection that is up leaves the state as it is.
    viva-igual :
        (socket : ℕ) (s : Estado)
        → Ensures
            (λ c. Conserva 0 s c.estado × (c.viva ≡ true → c.estado ≡ s))
            (test_connection red socket s)
    viva-igual socket s = record {
      value =
          λ c e. ((test_connection-Conserva red socket s).value c e, (intacta socket s).value c e);
    }

    otra_clave : (s u : Estado) → u.key ≡ s.key → (t : Estado) → Guarda dic u t → Guarda dic s t
    otra_clave s u e t g = record {
      indice = g.indice;
      instancia = g.instancia;
      en = g.en;
      clave = subst (λ k. dic.has_key g.instancia.keys k ≡ true) e g.clave;
      avisada = g.avisada;
    }

    -- The instance that is found has the key.
    vieja-Guarda :
        (fuel p : ℕ) (s : Estado)
        → (q : Instance) × (get_elem? s.instances p ≡ some q) × (dic.has_key q.keys s.key ≡ true)
        → Ensures (Guarda dic s) (asignar_vieja sorting red dic fuel p s)
    unfolding asignar_vieja
    vieja-Guarda fuel p s (q, g, h) = Ensures->>= (instancia_de s p) _ (instancia-leida s p) (λ r e.
        let q-r : q ≡ r = (let z : some q ≡ some r = sym g ∙ e in cc) in
        let tiene : dic.has_key r.keys s.key ≡ true =
          subst (λ i. dic.has_key i.keys s.key ≡ true) q-r h in
        Ensures-if r.is_active _ _
          (λ a. Ensures->>= (test_connection red r.socket s) _ (viva-igual r.socket s) (λ c w.
            Ensures-if c.viva _ _
              (λ v. Ensures-done _ (
                post_start-Guarda p r s c.estado (ap (λ t. get_elem? t.instances p) (w.1 v) ∙ e)
                  tiene))
              (λ v. Ensures-mono _ (otra_clave s c.estado w.0.key) (nueva-Guarda fuel c.estado))))
          (λ a. nueva-Guarda fuel s))

    -- When assign_instance returns, an instance of the list has the key of the message in its
    -- dictionary and is told to work.
    pub assign_instance-Guarda :
        (fuel : ℕ) (s : Estado) → Ensures (Guarda dic s) (assign_instance sorting red dic fuel s)
    unfolding assign_instance find_by_key tiene_clave
    assign_instance-Guarda fuel s =
        Ensures-option (find_index (tiene_clave dic s.key) s.instances) _ _
          (λ e. nueva-Guarda fuel s)
          (λ p e. vieja-Guarda fuel p s (find_index-some (tiene_clave dic s.key) s.instances p e))
