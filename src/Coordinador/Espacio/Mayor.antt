-- ===== src/Coordinador/Espacio/Mayor.antt =====
-- choose_by_space gives an active instance with the greatest free space.
use tp_re_distinto_so.Base.{
  ℕ, suc, ◌≤◌, ◌<◌, ◌≡◌, refl, sym, ◌∙◌, ap, subst, Bool, true, ◌||◌, List, [], ◌∷◌, none, some,
  Outcome, done, fault, ◌>>=◌, if◌then◌else◌, leb, leb→le, ==_iff, get_elem?, get_elem?-in, keep,
  length, All, All-get_elem?, drop, arith, Bool-cases, inl, inr, Sorting, All-list_sort,
  All-list_sort_back,
}
use tp_re_distinto_so.Coordinador.Estado.{Instance}
use tp_re_distinto_so.Coordinador.Letras.{cant_activas}
use tp_re_distinto_so.Coordinador.Turno.{Eleccion}
use tp_re_distinto_so.Coordinador.Turno.Vuelta.{drop-cons}
use tp_re_distinto_so.Coordinador.Espacio.{
  activas_desde, espacio_de, lower_than_the_next, has_the_same_space, con_el_mismo,
  find_by_free_space, elegir_en, choose_by_space,
}

-- The index is that of an active instance.
pub record EsActiva (lista : List Instance) (p : ℕ) : Type 0 where
  pub instancia : Instance
  pub en_lista : get_elem? lista p ≡ some instancia
  pub activa : instancia.is_active ≡ true

activas-EsActiva :
    (lista : List Instance) (i : ℕ) (ps : List Instance)
    → drop i lista ≡ ps
    → All (EsActiva lista) (activas_desde i ps)
unfolding activas_desde
activas-EsActiva lista i [] d = tt
activas-EsActiva lista i (p ∷ ps) d =
    let (g, d') = drop-cons lista i p ps d in
    elim (Bool-cases p.is_active) [
      | inl si ↦ rw si (
        record { instancia = p; en_lista = g; activa = si },
        activas-EsActiva lista (suc i) ps d',
      )
      | inr n ↦ rw n (activas-EsActiva lista (suc i) ps d')
    ]

-- The active instances have this space at most.
abbrev pub Cota : ℕ → Instance → Type 0
Cota m q = q.is_active ≡ true → q.free_space ≤ m

espacio_de-get_elem? :
    (lista : List Instance) (i : ℕ) (p : Instance)
    → get_elem? lista i ≡ some p
    → espacio_de lista i ≡ p.free_space
unfolding espacio_de
espacio_de-get_elem? lista i p g = ap (λ o. elim o [ none ↦ 0 | some q ↦ q.free_space ]) g

activas-Cota :
    (lista : List Instance) (m i : ℕ) (ps : List Instance)
    → drop i lista ≡ ps
    → All (λ j. espacio_de lista j ≤ m) (activas_desde i ps)
    → All (Cota m) ps
unfolding activas_desde
activas-Cota lista m i [] d h = tt
activas-Cota lista m i (p ∷ ps) d h =
    let (g, d') = drop-cons lista i p ps d in
    elim (Bool-cases p.is_active) [
      | inl si ↦
          let h' : All (λ j. espacio_de lista j ≤ m) (i ∷ activas_desde (suc i) ps) = rw si at h in
          (
            (λ a. omega (arith, espacio_de-get_elem? lista i p g, h'.0)),
            activas-Cota lista m (suc i) ps d' h'.1,
          )
      | inr n ↦ ((λ a. cc), activas-Cota lista m (suc i) ps d' (rw n at h))
    ]

length-activas : (i : ℕ) (ps : List Instance) → length (activas_desde i ps) ≡ cant_activas ps
unfolding activas_desde cant_activas
length-activas i [] = refl
length-activas i (p ∷ ps) = ground (arith, length-activas (suc i) ps)

All-keep :
    (P : ℕ → Type 0) (t : ℕ → Bool) (xs : List ℕ)
    → All P xs
    → All (λ x. P x × (t x ≡ true)) (keep t xs)
All-keep P t [] h = tt
All-keep P t (x ∷ xs) h = elim (Bool-cases (t x)) [
  | inl y ↦ rw y ((h.0, y), All-keep P t xs h.1)
  | inr n ↦ rw n (All-keep P t xs h.1)
]

mas_espacio_total :
    (lista : List Instance) (a b : ℕ)
    → (lower_than_the_next lista a b || lower_than_the_next lista b a) ≡ true
unfolding lower_than_the_next
mas_espacio_total lista a b = ground arith

mas_espacio_trans :
    (lista : List Instance) (a b c : ℕ)
    → lower_than_the_next lista a b ≡ true
    → lower_than_the_next lista b c ≡ true
    → lower_than_the_next lista a c ≡ true
unfolding lower_than_the_next
mas_espacio_trans lista a b c h k = ground arith

cotas :
    (lista : List Instance) (p : ℕ) (ps : List ℕ)
    → All (λ q. lower_than_the_next lista p q ≡ true) ps
    → All (λ j. espacio_de lista j ≤ espacio_de lista p) ps
unfolding lower_than_the_next
cotas lista p [] h = tt
cotas lista p (q ∷ ps) h =
    (leb→le (espacio_de lista q) (espacio_de lista p) h.0, cotas lista p ps h.1)

module _ (sorting : Sorting) (simulate : Bool) (lista : List Instance) (i : ℕ) where
  ordenadas : List ℕ
  ordenadas = sorting.list_sort (lower_than_the_next lista) (activas_desde 0 lista)

  -- `m` gives an active instance of the list, and no active one has more space.
  pub record Mayor (m : Outcome Eleccion) : Type 0 where
    pub eleccion : Eleccion
    pub instancia : Instance
    pub resultado : m ≡ done eleccion
    pub en_lista : get_elem? lista eleccion.elegida ≡ some instancia
    pub activa : instancia.is_active ≡ true
    pub mayor : All (Cota instancia.free_space) lista

  elegir_en-get_elem? :
      (mismos : List ℕ) (c : ℕ)
      → get_elem? mismos (if leb (length mismos) i then 0 else i) ≡ some c
      → (e : Eleccion) × (elegir_en simulate mismos i ≡ done e) × (e.elegida ≡ c)
  unfolding elegir_en
  elegir_en-get_elem? mismos c g =
      let j = if leb (length mismos) i then 0 else i in
      let e : Eleccion = record { elegida = c; instance_pointer = if simulate then j else suc j } in
      (
        e,
        ap
            (λ o. elim o [
              | none ↦ fault
              | some p ↦
                  done (record { elegida = p; instance_pointer = if simulate then j else suc j })
            ])
            g,
        refl,
      )

  en_rango : (n : ℕ) → 0 < n → (if leb n i then 0 else i) < n
  en_rango n h = ground arith

  mismos_lem : (p : ℕ) (ps : List ℕ) → 0 < length (keep (has_the_same_space lista p) (p ∷ ps))
  unfolding has_the_same_space
  mismos_lem p ps = ground arith

  entre_mismos :
      (p : ℕ) (ps : List ℕ)
      → All (EsActiva lista) (p ∷ ps)
      → All (Cota (espacio_de lista p)) lista
      → Mayor (elegir_en simulate (keep (has_the_same_space lista p) (p ∷ ps)) i)
  unfolding has_the_same_space
  entre_mismos p ps h cota =
      let t = has_the_same_space lista p in
      let mismos = keep t (p ∷ ps) in
      let (c, g) =
        get_elem?-in mismos (if leb (length mismos) i then 0 else i)
          (en_rango (length mismos) (mismos_lem p ps)) in
      let (a, igual) =
        All-get_elem? (λ x. EsActiva lista x × (t x ≡ true)) mismos _ c
          (All-keep (EsActiva lista) t (p ∷ ps) h) g in
      let (e, r, ec) = elegir_en-get_elem? mismos c g in
      let mismo : espacio_de lista c ≡ espacio_de lista p =
        (==_iff (espacio_de lista c) (espacio_de lista p)).0 igual in
      record {
        eleccion = e;
        instancia = a.instancia;
        resultado = r;
        en_lista = ap (λ k. get_elem? lista k) ec ∙ a.en_lista;
        activa = a.activa;
        mayor =
            subst (λ m. All (Cota m) lista)
              (sym mismo ∙ espacio_de-get_elem? lista c a.instancia a.en_lista) cota;
      }

  choose_by_space-orden :
      (p : ℕ) (ps : List ℕ)
      → ordenadas ≡ p ∷ ps
      → choose_by_space sorting simulate lista i
        ≡ elegir_en simulate (keep (has_the_same_space lista p) (p ∷ ps)) i
  unfolding choose_by_space find_by_free_space con_el_mismo ordenadas
  choose_by_space-orden p ps e =
      ap (λ xs. con_el_mismo lista xs >>= λ mismos. elegir_en simulate mismos i) e

  primera_mayor : (p : ℕ) (ps : List ℕ) → ordenadas ≡ p ∷ ps → All (Cota (espacio_de lista p)) lista
  unfolding ordenadas
  primera_mayor p ps e =
      let mejor = lower_than_the_next lista in
      let detras =
        sorting.list_sort-head mejor (activas_desde 0 lista) p ps (mas_espacio_total lista)
          (mas_espacio_trans lista) e in
      let todas : All (λ j. espacio_de lista j ≤ espacio_de lista p) (p ∷ ps) =
        (omega arith, cotas lista p ps detras) in
      activas-Cota lista (espacio_de lista p) 0 lista refl (
        All-list_sort_back (λ j. espacio_de lista j ≤ espacio_de lista p) sorting mejor
          (activas_desde 0 lista)
          (subst (All (λ j. espacio_de lista j ≤ espacio_de lista p)) (sym e) todas))

  segun_orden :
      (xs : List ℕ)
      → ordenadas ≡ xs
      → 0 < cant_activas lista
      → Mayor (choose_by_space sorting simulate lista i)
  unfolding ordenadas
  segun_orden [] e h = absurd (
      omega (
        arith,
        h,
        ap (λ ys. length ys) e,
        sorting.length-list_sort (lower_than_the_next lista) (activas_desde 0 lista),
        length-activas 0 lista,
      ))
  segun_orden (p ∷ ps) e h =
      let activas : All (EsActiva lista) (p ∷ ps) = subst (All (EsActiva lista)) e (
        All-list_sort (EsActiva lista) sorting (lower_than_the_next lista) (activas_desde 0 lista)
          (activas-EsActiva lista 0 lista refl)) in
      subst Mayor (sym (choose_by_space-orden p ps e))
        (entre_mismos p ps activas (primera_mayor p ps e))

  -- With an active instance, for any pointer, simulated or not, LSU chooses without a fault an active
  -- instance of the list than which no active one has more free space.
  pub choose_by_space-Mayor :
      0 < cant_activas lista → Mayor (choose_by_space sorting simulate lista i)
  choose_by_space-Mayor h = segun_orden ordenadas refl h
