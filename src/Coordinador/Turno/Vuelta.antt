-- ===== src/Coordinador/Turno/Vuelta.antt =====
-- choose_by_counter gives an active instance, and the pointer stays in the list.
use tp_re_distinto_so.Base.{
  ℕ, zero, suc, ◌<◌, ◌≡◌, refl, sym, subst, ◌⊎◌, inl, inr, Bool, true, false, List, [], ◌∷◌, none,
  some, done, fault, if◌then◌else◌, leb, get_elem?, get_elem?-in, drop, length, any_satisfy, arith,
  Bool-cases,
}
use tp_re_distinto_so.Coordinador.Estado.{Instance}
use tp_re_distinto_so.Coordinador.Turno.{Eleccion, saltar, choose_by_counter}

abbrev pub activa : Instance → Bool
activa p = p.is_active

pub drop-cons :
    (lista : List Instance) (i : ℕ) (p : Instance) (resto : List Instance)
    → drop i lista ≡ p ∷ resto
    → (get_elem? lista i ≡ some p) × (drop (suc i) lista ≡ resto)
drop-cons [] zero p resto e = cc
drop-cons [] (suc i) p resto e = cc
drop-cons (x ∷ lista) zero p resto e = (cc, cc)
drop-cons (x ∷ lista) (suc i) p resto e = drop-cons lista i p resto e

-- The chosen instance is in the list, and is active unless none of `resto` is.
pub record Elegida (lista resto : List Instance) (e : Eleccion) : Type 0 where
  pub instancia : Instance
  pub en_lista : get_elem? lista e.elegida ≡ some instancia
  pub estado : (instancia.is_active ≡ true) ⊎ (any_satisfy activa resto ≡ false)

saltar-Elegida :
    (lista resto : List Instance) (b : Bool) (q : Instance) (elegida i : ℕ)
    → get_elem? lista elegida ≡ some q
    → q.is_active ≡ b
    → drop i lista ≡ resto
    → Elegida lista resto (saltar b elegida i resto)
unfolding saltar
saltar-Elegida lista resto true q elegida i g a d = record {
  instancia = q;
  en_lista = g;
  estado = inl a;
}
saltar-Elegida lista [] false q elegida i g a d = record {
  instancia = q;
  en_lista = g;
  estado = inr refl;
}
saltar-Elegida lista (p ∷ resto) false q elegida i g a d =
    let (g', d') = drop-cons lista i p resto d in
    elim (Bool-cases p.is_active) [
      | inl si ↦
          subst (λ b. Elegida lista (p ∷ resto) (saltar b i (suc i) resto)) (sym si)
            record { instancia = p; en_lista = g'; estado = inl si }
      | inr no_activa ↦
          let r = saltar-Elegida lista resto p.is_active p i (suc i) g' refl d' in
          record {
            instancia = r.instancia;
            en_lista = r.en_lista;
            estado = elim r.estado [ inl y ↦ inl y | inr n ↦ inr (ground (arith, no_activa, n)) ];
          }
    ]

get_elem?-drop :
    (lista : List Instance) (i : ℕ) (q : Instance)
    → get_elem? lista i ≡ some q
    → drop i lista ≡ q ∷ drop (suc i) lista
get_elem?-drop [] i q e = cc
get_elem?-drop (x ∷ lista) zero q e = cc
get_elem?-drop (x ∷ lista) (suc i) q e = get_elem?-drop lista i q e

-- None from the pointer on, from none behind it.
ninguna :
    (simulate : Bool) (lista : List Instance) (i : ℕ) (q : Instance)
    → get_elem? lista i ≡ some q
    → q.is_active ≡ false
    → any_satisfy activa (drop (if simulate then i else suc i) lista) ≡ false
    → any_satisfy activa (drop i lista) ≡ false
ninguna true lista i q g a n = n
ninguna false lista i q g a n = rw (get_elem?-drop lista i q g) (ground (arith, a, n))

elegir :
    (simulate : Bool) (lista : List Instance) (i : ℕ) (q : Instance)
    → get_elem? lista i ≡ some q
    → Elegida lista (drop i lista) (
        saltar q.is_active i
          (if simulate then i else suc i)
          (drop (if simulate then i else suc i) lista))
unfolding saltar
elegir simulate lista i q g = elim (Bool-cases q.is_active) [
  | inl si ↦
      subst
        (λ b.
          Elegida lista (drop i lista) (
            saltar b i (if simulate then i else suc i)
              (drop (if simulate then i else suc i) lista)))
        (sym si) record { instancia = q; en_lista = g; estado = inl si }
  | inr no_activa ↦
      let r = saltar-Elegida lista _ q.is_active q i (if simulate then i else suc i) g refl refl in
      record {
        instancia = r.instancia;
        en_lista = r.en_lista;
        estado = elim r.estado [
          | inl y ↦ inl y
          | inr n ↦ inr (ninguna simulate lista i q g no_activa n)
        ];
      }
]

elegida_en : Bool → List Instance → ℕ → Instance → Eleccion
elegida_en simulate lista i q =
    let j = if simulate then i else suc i in
    let e = saltar q.is_active i j (drop j lista) in
    record e {
      instance_pointer = if leb (length lista) e.instance_pointer then 0 else e.instance_pointer;
    }

choose_by_counter-get_elem? :
    (simulate : Bool) (lista : List Instance) (i : ℕ) (q : Instance)
    → get_elem? lista i ≡ some q
    → choose_by_counter simulate lista i ≡ done (elegida_en simulate lista i q)
unfolding choose_by_counter elegida_en
choose_by_counter-get_elem? simulate lista i q g =
    subst
      (λ o.
        elim o [ none ↦ fault | some p ↦ done (elegida_en simulate lista i p) ]
        ≡ done (elegida_en simulate lista i q))
      (sym g) refl

dentro : (n p : ℕ) → 0 < n → (if leb n p then 0 else p) < n
dentro n p h = ground arith

-- With the pointer in the list the choice is made, simulated or not; the chosen instance is in the
-- list, is active unless none from the pointer on is, and the new pointer is in the list.
pub choose_by_counter-Elegida :
    (simulate : Bool) (lista : List Instance) (i : ℕ)
    → i < length lista
    → (e : Eleccion) × (choose_by_counter simulate lista i ≡ done e)
      × Elegida lista (drop i lista) e
      × (e.instance_pointer < length lista)
unfolding elegida_en
choose_by_counter-Elegida simulate lista i h =
    let (q, g) = get_elem?-in lista i h in
    let r = elegir simulate lista i q g in
    (
      elegida_en simulate lista i q,
      choose_by_counter-get_elem? simulate lista i q g,
      record { instancia = r.instancia; en_lista = r.en_lista; estado = r.estado },
      dentro (length lista) _ (omega arith),
    )
