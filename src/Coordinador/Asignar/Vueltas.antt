-- ===== src/Coordinador/Asignar/Vueltas.antt =====
-- How many connections of the list are down and not closed, and what the parts of assign_instance do to
-- them.
pub mod Fin
use tp_re_distinto_so.Base.{
  ℕ, zero, suc, ◌+◌, ◌-◌, ◌≡◌, ◌≢◌, ◌≤◌, ◌<◌, refl, sym, ◌∙◌, ap, subst, Bool, true, false, not,
  ◌&&◌, ◌||◌, List, [], ◌∷◌, Option, none, some, Outcome, done, fault, exits, waits, spent, ◌>>=◌,
  if◌then◌else◌, ◌==◌, leb, map, any_satisfy, get_elem?, update_at, update_first, length, keep,
  arith, Bool-cases, ◌⊎◌, inl, inr, Sorting, Ensures, Ensures-done, Ensures-fault, Ensures-waits,
  Ensures-spent, Ensures-if, Ensures-elim, Ensures-mono, Ensures-option, Ensures->>=, bastar-if,
  bastar-elim, bastar-option, bastar->>=,
}
use tp_re_distinto_so.Coordinador.Estado.{
  Algorithm, el, lsu, ke, Instance, Estado, Red, instancia_de, post_start,
}
use tp_re_distinto_so.Coordinador.Letras.{cant_activas, con_letras, repartir, assign_letters}
use tp_re_distinto_so.Coordinador.Instancias.{
  asignar, tiene_socket, socket_is_equal, caida, disconnect_instance_in_list,
}
use tp_re_distinto_so.Coordinador.Turno.{choose_by_counter}
use tp_re_distinto_so.Coordinador.Espacio.{
  choose_by_space, find_by_free_space, con_el_mismo, elegir_en,
}
use tp_re_distinto_so.Coordinador.Claves.{
  Dictionary, Conexion, cerrar, disconnect_socket, esta_caido, test_connection, find_by_key,
}
use tp_re_distinto_so.Coordinador.Asignar.{
  Opcion, elegir_por, choose_instance, reintentar, asignar_nueva, asignar_vieja, assign_instance,
}

abbrev pub sockets : List Instance → List ℕ
sockets xs = map (λ q. q.socket) xs

module _ (red : Red) where
  -- The sockets that are down and not yet closed.
  abbrev pub peso : List ℕ → ℕ → ℕ
  peso cs k = if red.caido k && not (any_satisfy (λ c. c == k) cs) then 1 else 0

  abbrev pub pendientes : List ℕ → List ℕ → ℕ
  pendientes cs [] = 0
  pendientes cs (k ∷ ks) = peso cs k + pendientes cs ks

  pub pendientes-length : (cs ks : List ℕ) → pendientes cs ks ≤ length ks
  pendientes-length cs [] = omega arith
  pendientes-length cs (k ∷ ks) = ground (arith, pendientes-length cs ks)

menor : (a b c : Bool) → (if a && not (b || c) then 1 else 0) ≤ (if a && not c then 1 else 0)
menor true true true = omega arith
menor true true false = omega arith
menor true false true = omega arith
menor true false false = omega arith
menor false b c = omega arith

abbrev unidad : Bool → ℕ
unidad b = if b then 1 else 0

nunca : (a : Bool) → unidad (a && false) ≡ 0
nunca true = refl
nunca false = refl

si_uno : (b : Bool) → b ≡ true → unidad b ≡ 1
si_uno b e = rw e refl

module _ (red : Red) where
  pendientes-menos : (k : ℕ) (cs ks : List ℕ) → pendientes red (k ∷ cs) ks ≤ pendientes red cs ks
  pendientes-menos k cs [] = omega arith
  pendientes-menos k cs (x ∷ ks) =
      let m = menor (red.caido x) (k == x) (any_satisfy (λ c. c == x) cs) in
      omega (arith, m, pendientes-menos k cs ks)

  peso-cero : (k x : ℕ) (cs : List ℕ) → (k == x) ≡ true → peso red (k ∷ cs) x ≡ 0
  peso-cero k x cs e = rw e (nunca (red.caido x))

  -- Closing one that is down takes it away.
  pub pendientes-baja :
      (i k : ℕ) (cs ks : List ℕ)
      → get_elem? ks i ≡ some k
      → (red.caido k && not (any_satisfy (λ c. c == k) cs)) ≡ true
      → pendientes red (k ∷ cs) ks < pendientes red cs ks
  pendientes-baja i k cs [] e h = cc
  pendientes-baja zero k cs (x ∷ ks) e h =
      let x-k : x ≡ k = cc in
      let uno : peso red cs x ≡ 1 = subst (λ y. peso red cs y ≡ 1) (sym x-k) (si_uno _ h) in
      let cero : peso red (k ∷ cs) x ≡ 0 = peso-cero k x cs (ground (arith, x-k)) in
      omega (arith, uno, cero, pendientes-menos k cs ks)
  pendientes-baja (suc i) k cs (x ∷ ks) e h =
      let m = menor (red.caido x) (k == x) (any_satisfy (λ c. c == x) cs) in
      omega (arith, m, pendientes-baja i k cs ks e h)

-- The sockets of the instances stay, and the closed ones.
abbrev pub Igual : Estado → Estado → Type 0
Igual s t = (t.cerrados ≡ s.cerrados) × (sockets t.instances ≡ sockets s.instances)

en_si :
    (P : List Instance → Type 0) (b : Bool) (xs ys : List Instance)
    → P xs
    → P ys
    → P (if b then xs else ys)
en_si P true xs ys h k = h
en_si P false xs ys h k = k

sockets-repartir :
    (n cant assigned : ℕ) (ps : List Instance) → sockets (repartir n cant assigned ps) ≡ sockets ps
unfolding repartir con_letras
sockets-repartir n cant assigned [] = refl
sockets-repartir n cant assigned (p ∷ ps) =
    let P = λ (xs : List Instance). sockets xs ≡ p.socket ∷ sockets ps in
    let sigue = λ (m k : ℕ). ap (λ ks. p.socket ∷ ks) (sockets-repartir n m k ps) in
    en_si P p.is_active _ _
      (en_si P (leb n cant) (con_letras assigned n p ∷ repartir n (cant - n) (assigned + n) ps)
        (con_letras assigned cant p ∷ repartir n cant assigned ps) (sigue (cant - n) (assigned + n))
        (sigue cant assigned))
      (sigue cant assigned)

pub get_elem?-sockets :
    (xs : List Instance) (p : ℕ) (q : Instance)
    → get_elem? xs p ≡ some q
    → get_elem? (sockets xs) p ≡ some q.socket
get_elem?-sockets [] p q e = cc
get_elem?-sockets (x ∷ xs) zero q e = let x-q : x ≡ q = cc in ap (λ r. some r.socket) x-q
get_elem?-sockets (x ∷ xs) (suc p) q e = get_elem?-sockets xs p q e

pub length-sockets : (xs : List Instance) → length (sockets xs) ≡ length xs
length-sockets [] = refl
length-sockets (x ∷ xs) = ap suc (length-sockets xs)

pub largo : (xs ys : List Instance) → sockets xs ≡ sockets ys → length xs ≡ length ys
largo xs ys e = sym (length-sockets xs) ∙ ap length e ∙ length-sockets ys

sockets-update_first :
    (t : Instance → Bool) (f : Instance → Instance) (xs : List Instance)
    → ((r : Instance) → (f r).socket ≡ r.socket)
    → sockets (update_first t f xs) ≡ sockets xs
sockets-update_first t f [] h = refl
sockets-update_first t f (x ∷ xs) h = elim (Bool-cases (t x)) [
  | inl y ↦ rw y (ap (λ k. k ∷ sockets xs) (h x))
  | inr n ↦ rw n (ap (λ ks. x.socket ∷ ks) (sockets-update_first t f xs h))
]

asignar-Igual : (g : Algorithm) (s : Estado) → Ensures (Igual s) (asignar g s)
unfolding asignar assign_letters
asignar-Igual el s = Ensures-done s (refl, refl)
asignar-Igual lsu s = Ensures-done s (refl, refl)
asignar-Igual ke s =
    Ensures->>= {Q = λ xs. sockets xs ≡ sockets s.instances} (assign_letters s.instances) _
      (Ensures-if (cant_activas s.instances == 0) fault _ (λ e. Ensures-fault)
        (λ e. Ensures-done _ (sockets-repartir _ 26 0 s.instances)))
      (λ xs h. Ensures-done _ (refl, h))

pub disconnect-Igual :
    (socket : ℕ) (s : Estado) → Ensures (Igual s) (disconnect_instance_in_list socket s)
unfolding disconnect_instance_in_list caida
disconnect-Igual socket s =
    Ensures-option (socket_is_equal s.instances socket) (done s) _
      (λ e. Ensures-done s (refl, refl))
      (λ q e.
        Ensures-if (s.one_instance == 0) waits _ (λ y. Ensures-waits)
          (λ n.
            Ensures-mono _
              (λ t h. (
                h.0,
                h.1 ∙ sockets-update_first (tiene_socket socket) caida s.instances (λ r. refl),
              ))
              (asignar-Igual s.algorithm _)))

pub asignar-basta : (g : Algorithm) (s : Estado) → asignar g s ≢ spent
unfolding asignar assign_letters
asignar-basta el s = λ e. cc
asignar-basta lsu s = λ e. cc
asignar-basta ke s =
    bastar->>= {Q = λ xs. Unit {0}} (assign_letters s.instances) _
      (bastar-if (cant_activas s.instances == 0) fault _ (λ e k. cc) (λ e k. cc))
      (record { value = λ a e. tt }) (λ xs h k. cc)

pub disconnect-basta : (socket : ℕ) (s : Estado) → disconnect_instance_in_list socket s ≢ spent
unfolding disconnect_instance_in_list
disconnect-basta socket s =
    bastar-option (socket_is_equal s.instances socket) (done s) _ (λ e. cc)
      (λ q e.
        bastar-if (s.one_instance == 0) waits _ (λ y k. cc) (λ n. asignar-basta s.algorithm _))

module _ (sorting : Sorting) where
  pub elegir-Igual :
      (g : Algorithm) (simulate : Bool) (s : Estado)
      → Ensures (λ o. Igual s o.estado) (elegir_por sorting g simulate s)
  unfolding elegir_por
  elegir-Igual el simulate s =
      Ensures->>= {Q = λ e. Unit {0}} (choose_by_counter simulate s.instances s.instance_pointer) _
        (record { value = λ a e. tt }) (λ e h. Ensures-done _ (refl, refl))
  elegir-Igual lsu simulate s =
      Ensures->>= {Q = λ e. Unit {0}}
        (choose_by_space sorting simulate s.instances s.instance_pointer) _
        (record { value = λ a e. tt }) (λ e h. Ensures-done _ (refl, refl))
  elegir-Igual ke simulate s = Ensures-done _ (refl, refl)

  mismo-basta : (lista : List Instance) (ps : List ℕ) → con_el_mismo lista ps ≢ spent
  unfolding con_el_mismo
  mismo-basta lista [] = λ e. cc
  mismo-basta lista (p ∷ ps) = λ e. cc

  pub elegir-basta :
      (g : Algorithm) (simulate : Bool) (s : Estado) → elegir_por sorting g simulate s ≢ spent
  unfolding elegir_por choose_by_counter choose_by_space find_by_free_space elegir_en
  elegir-basta el simulate s =
      bastar->>= {Q = λ e. Unit {0}} (choose_by_counter simulate s.instances s.instance_pointer) _
        (bastar-option (get_elem? s.instances s.instance_pointer) fault _ (λ e. cc) (λ q e k. cc))
        (record { value = λ a e. tt }) (λ e h k. cc)
  elegir-basta lsu simulate s =
      bastar->>= {Q = λ e. Unit {0}}
        (choose_by_space sorting simulate s.instances s.instance_pointer) _
        (bastar->>= {Q = λ e. Unit {0}} (find_by_free_space sorting s.instances) _
          (mismo-basta s.instances _) (record { value = λ a e. tt })
          (λ mismos h. bastar-option (get_elem? mismos _) fault _ (λ e. cc) (λ q e k. cc)))
        (record { value = λ a e. tt }) (λ e h k. cc)
  elegir-basta ke simulate s = λ e. cc
