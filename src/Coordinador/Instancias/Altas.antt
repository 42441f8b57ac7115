-- ===== src/Coordinador/Instancias/Altas.antt =====
-- Under KE every letter has an instance after each connection and each disconnection.
use tp_re_distinto_so.Base.{
  All-update_first, ℕ, ◌+◌, ◌-◌, ◌<◌, ◌≡◌, refl, sym, ◌∙◌, ap, subst, Bool, true, false, List, [],
  ◌∷◌, ◌++◌, Option, none, some, Text, Commons, Outcome, done, waits, ◌>>=◌, if◌then◌else◌, leb,
  ◌==◌, find_first, update_first, length, All, All-append, arith, Bool-cases, Option-cases, inl,
  inr,
}
use tp_re_distinto_so.Coordinador.Estado.{Algorithm, ke, Instance, Estado}
use tp_re_distinto_so.Coordinador.Letras.{
  cant_activas, letters_to_instances, con_letras, repartir, assign_letters,
}
use tp_re_distinto_so.Coordinador.Letras.Cobertura.{
  SinLetras, Cubre, repartir-cons, entero, ultimo, repartir-TieneInstancia, bastan,
}
use tp_re_distinto_so.Coordinador.Instancias.{
  Alta, asignar, tiene_socket, socket_is_equal, caida, disconnect_instance_in_list, tiene_nombre,
  name_is_equal, nueva_instancia, conectada, add_instance_to_list,
}

con_letras-SinLetras :
    (assigned cant : ℕ) (p : Instance) → p.is_active ≡ true → SinLetras (con_letras assigned cant p)
unfolding con_letras
con_letras-SinLetras assigned cant p a h = cc

-- assign_letters gives letters to active instances only.
repartir-SinLetras :
    (n cant assigned : ℕ) (ps : List Instance)
    → All SinLetras ps
    → All SinLetras (repartir n cant assigned ps)
unfolding repartir entero ultimo
repartir-SinLetras n cant assigned [] h = tt
repartir-SinLetras n cant assigned (p ∷ ps) h =
    let igual = repartir-cons n cant assigned p ps in
    elim (Bool-cases p.is_active) [
      | inr no_activa ↦
          subst (All SinLetras) (sym (igual false (leb n cant) no_activa refl))
            (h.0, repartir-SinLetras n cant assigned ps h.1)
      | inl activa ↦ elim (Bool-cases (leb n cant)) [
        | inr ultima ↦
            subst (All SinLetras) (sym (igual true false activa ultima)) (
              con_letras-SinLetras assigned cant p activa,
              repartir-SinLetras n cant assigned ps h.1,
            )
        | inl entera ↦ subst (All SinLetras) (sym (igual true true activa entera)) (
          con_letras-SinLetras assigned n p activa,
          repartir-SinLetras n (cant - n) (assigned + n) ps h.1,
        )
      ]
    ]

-- `m` ends in a state with an instance for each letter, in which those that are down have none.
pub record Repartida (s : Estado) (m : Outcome Estado) : Type 0 where
  pub estado : Estado
  pub resultado : m ≡ done estado
  pub cubre : Cubre estado.instances
  pub sin_letras : All SinLetras estado.instances
  pub semaforo : estado.one_instance ≡ s.one_instance

pub asignar-Repartida :
    (s : Estado)
    → All SinLetras s.instances
    → 0 < cant_activas s.instances
    → Repartida s (asignar ke s)
unfolding asignar assign_letters
asignar-Repartida s h a =
    let n = letters_to_instances (cant_activas s.instances) in
    let hay : (cant_activas s.instances == 0) ≡ false = ground arith in
    record {
      estado = record s { instances = repartir n 26 0 s.instances };
      resultado = rw hay;
      cubre = λ letter desde hasta.
          repartir-TieneInstancia n 26 0 letter s.instances refl
            (bastan (cant_activas s.instances) a) h desde hasta;
      sin_letras = repartir-SinLetras n 26 0 s.instances h;
      semaforo = refl;
    }

cant_activas-append :
    (xs : List Instance) (p : Instance) → p.is_active ≡ true → 0 < cant_activas (xs ++ p ∷ [])
unfolding cant_activas
cant_activas-append [] p a = rw a (omega arith)
cant_activas-append (x ∷ xs) p a = ground (arith, cant_activas-append xs p a)

cant_activas-update_first :
    (t : Instance → Bool) (f : Instance → Instance) (xs : List Instance) (q : Instance)
    → ((p : Instance) → (f p).is_active ≡ true)
    → find_first t xs ≡ some q
    → 0 < cant_activas (update_first t f xs)
unfolding cant_activas
cant_activas-update_first t f [] q a e = cc
cant_activas-update_first t f (x ∷ xs) q a e = elim (Bool-cases (t x)) [
  | inl y ↦ rw (y, a x) (omega arith)
  | inr n ↦ let r = cant_activas-update_first t f xs q a (rw n at e) in rw n (ground (arith, r))
]

caida-SinLetras : (p : Instance) → SinLetras p → SinLetras (caida p)
unfolding caida
caida-SinLetras p h e = refl

module _ (commons : Commons) where
  conectada-SinLetras :
      (socket : ℕ) (p : Instance) → SinLetras p → SinLetras (conectada commons socket p)
  unfolding conectada
  conectada-SinLetras socket p h e = cc

  -- The two states that add_instance_to_list assigns letters in.
  con_nueva : Text → ℕ → Estado → Estado
  con_nueva name socket s = record s {
    instances = s.instances ++ nueva_instancia commons name socket ∷ [];
  }

  con_conocida : Text → ℕ → Estado → Estado
  con_conocida name socket s = record s {
    instances = update_first (tiene_nombre commons name) (conectada commons socket) s.instances;
  }

  alta : Text → ℕ → Estado → Algorithm → Option Instance → Outcome Alta
  alta name socket s g o = elim o [
    | some q ↦ do
      s' ← asignar g (con_conocida name socket s)
      done (record { estado = s'; nueva = none })
    | none ↦ do
      s' ← asignar g (con_nueva name socket s)
      done (record { estado = s'; nueva = some (length s.instances) })
  ]

  add_instance_to_list-alta :
      (name : Text) (socket : ℕ) (s : Estado) (g : Algorithm) (o : Option Instance)
      → s.algorithm ≡ g
      → name_is_equal commons s.instances name ≡ o
      → add_instance_to_list commons name socket s ≡ alta name socket s g o
  unfolding add_instance_to_list alta con_nueva con_conocida
  add_instance_to_list-alta name socket s g o k e =
      ap (alta name socket s s.algorithm) e ∙ ap (λ g'. alta name socket s g' o) k

  nueva-Repartida :
      (name : Text) (socket : ℕ) (s : Estado)
      → All SinLetras s.instances
      → Repartida (con_nueva name socket s) (asignar ke (con_nueva name socket s))
  unfolding con_nueva nueva_instancia
  nueva-Repartida name socket s h =
      asignar-Repartida (con_nueva name socket s)
        (All-append SinLetras s.instances _ h ((λ e. refl), tt))
        (cant_activas-append s.instances (nueva_instancia commons name socket) refl)

  conocida-Repartida :
      (name : Text) (socket : ℕ) (s : Estado) (q : Instance)
      → All SinLetras s.instances
      → name_is_equal commons s.instances name ≡ some q
      → Repartida (con_conocida name socket s) (asignar ke (con_conocida name socket s))
  unfolding con_conocida name_is_equal conectada
  conocida-Repartida name socket s q h e =
      asignar-Repartida (con_conocida name socket s)
        (All-update_first SinLetras (tiene_nombre commons name) (conectada commons socket)
          s.instances (conectada-SinLetras socket) h)
        (cant_activas-update_first (tiene_nombre commons name) (conectada commons socket)
          s.instances q (λ p. refl) e)

  -- Under KE, where the instances that are down have no letters: an instance that connects, known or
  -- new, is added without a fault, every letter has an active instance then, and those that are down
  -- have no letters; a name that is not known gives a new instance, at the end of the list.
  pub add_instance_to_list-Cubre :
      (name : Text) (socket : ℕ) (s : Estado)
      → s.algorithm ≡ ke
      → All SinLetras s.instances
      → (a : Alta) × (add_instance_to_list commons name socket s ≡ done a)
        × Cubre a.estado.instances
        × All SinLetras a.estado.instances
        × (a.nueva ≡ elim (name_is_equal commons s.instances name) [
          | none ↦ some (length s.instances)
          | some q ↦ none
        ])
  unfolding alta
  add_instance_to_list-Cubre name socket s k h =
      elim (Option-cases (name_is_equal commons s.instances name)) [
        | inl e ↦
            let r = nueva-Repartida name socket s h in
            (
              record { estado = r.estado; nueva = some (length s.instances) },
              add_instance_to_list-alta name socket s ke none k e ∙ rw r.resultado,
              r.cubre,
              r.sin_letras,
              rw e,
            )
        | inr (q, e) ↦
            let r = conocida-Repartida name socket s q h e in
            (
              record { estado = r.estado; nueva = none },
              add_instance_to_list-alta name socket s ke (some q) k e ∙ rw r.resultado,
              r.cubre,
              r.sin_letras,
              rw e,
            )
      ]

sin_socket : ℕ → Estado → Estado
sin_socket socket s = record s {
  instances = update_first (tiene_socket socket) caida s.instances;
  one_instance = s.one_instance - 1;
}

baja : ℕ → Estado → Algorithm → Option Instance → Bool → Outcome Estado
baja socket s g o espera = elim o [
  | none ↦ done s
  | some q ↦ if espera then waits else asignar g (sin_socket socket s)
]

disconnect_instance_in_list-baja :
    (socket : ℕ) (s : Estado) (q : Instance)
    → s.algorithm ≡ ke
    → socket_is_equal s.instances socket ≡ some q
    → 0 < s.one_instance
    → disconnect_instance_in_list socket s ≡ asignar ke (sin_socket socket s)
unfolding disconnect_instance_in_list baja sin_socket
disconnect_instance_in_list-baja socket s q k e w =
    let libre : (s.one_instance == 0) ≡ false = ground arith in
    ap (λ o. baja socket s s.algorithm o (s.one_instance == 0)) e
    ∙ ap (λ b. baja socket s s.algorithm (some q) b) libre
    ∙ ap (λ g. asignar g (sin_socket socket s)) k

-- Under KE, where the instances that are down have no letters, and with the semaphore not 0: when a
-- known instance disconnects and another one is active, every letter has an active instance again,
-- those that are down have no letters, and the semaphore is lowered by one.
pub disconnect_instance_in_list-Cubre :
    (socket : ℕ) (s : Estado) (q : Instance)
    → s.algorithm ≡ ke
    → All SinLetras s.instances
    → socket_is_equal s.instances socket ≡ some q
    → 0 < s.one_instance
    → 0 < cant_activas (update_first (tiene_socket socket) caida s.instances)
    → (t : Estado) × (disconnect_instance_in_list socket s ≡ done t)
      × Cubre t.instances
      × All SinLetras t.instances
      × (t.one_instance ≡ s.one_instance - 1)
unfolding sin_socket
disconnect_instance_in_list-Cubre socket s q k h e w a =
    let r =
      asignar-Repartida (sin_socket socket s)
        (All-update_first SinLetras (tiene_socket socket) caida s.instances caida-SinLetras h) a in
    (
      r.estado,
      disconnect_instance_in_list-baja socket s q k e w ∙ r.resultado,
      r.cubre,
      r.sin_letras,
      r.semaforo,
    )
