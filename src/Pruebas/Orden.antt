-- ===== src/Pruebas/Orden.antt =====
-- An instance of list_sort: the insertion sort.
use tp_re_distinto_so.Base.{
  ℕ, suc, ◌≡◌, refl, Bool, true, ◌||◌, List, [], ◌∷◌, if◌then◌else◌, count, length, All, arith,
  Bool-cases, inl, inr, Sorting, subst,
}

module _ (best : ℕ → ℕ → Bool) where
  unfoldable pub insertar : ℕ → List ℕ → List ℕ
  insertar x [] = x ∷ []
  insertar x (y ∷ ys) = if best x y then x ∷ y ∷ ys else y ∷ insertar x ys

  unfoldable pub ordenar : List ℕ → List ℕ
  unfolding insertar
  ordenar [] = []
  ordenar (x ∷ xs) = insertar x (ordenar xs)

  count-insertar : (x : ℕ) (xs : List ℕ) (p : ℕ) → count p (insertar x xs) ≡ count p (x ∷ xs)
  unfolding insertar
  count-insertar x [] p = refl
  count-insertar x (y ∷ ys) p = ground (arith, count-insertar x ys p)

  pub count-ordenar : (xs : List ℕ) (p : ℕ) → count p (ordenar xs) ≡ count p xs
  unfolding ordenar
  count-ordenar [] p = refl
  count-ordenar (x ∷ xs) p = ground (arith, count-insertar x (ordenar xs) p, count-ordenar xs p)

  length-insertar : (x : ℕ) (xs : List ℕ) → length (insertar x xs) ≡ suc (length xs)
  unfolding insertar
  length-insertar x [] = refl
  length-insertar x (y ∷ ys) = ground (arith, length-insertar x ys)

  pub length-ordenar : (xs : List ℕ) → length (ordenar xs) ≡ length xs
  unfolding ordenar
  length-ordenar [] = refl
  length-ordenar (x ∷ xs) = omega (arith, length-insertar x (ordenar xs), length-ordenar xs)

  abbrev Delante : List ℕ → Type 0
  Delante [] = Unit
  Delante (p ∷ ps) = All (λ q. best p q ≡ true) ps

  All-insertar : (P : ℕ → Type 0) (x : ℕ) (xs : List ℕ) → P x → All P xs → All P (insertar x xs)
  unfolding insertar
  All-insertar P x [] h k = (h, tt)
  All-insertar P x (y ∷ ys) h k = elim (Bool-cases (best x y)) [
    | inl si ↦ rw si (h, k)
    | inr no_va ↦ rw no_va (k.0, All-insertar P x ys h k.1)
  ]

  All-best :
      (x y : ℕ) (ys : List ℕ)
      → ((a b c : ℕ) → best a b ≡ true → best b c ≡ true → best a c ≡ true)
      → best x y ≡ true
      → All (λ q. best y q ≡ true) ys
      → All (λ q. best x q ≡ true) ys
  All-best x y [] tr h k = tt
  All-best x y (z ∷ ys) tr h k = (tr x y z h k.0, All-best x y ys tr h k.1)

  module _ (total : (a b : ℕ) → (best a b || best b a) ≡ true)
      (tr : (a b c : ℕ) → best a b ≡ true → best b c ≡ true → best a c ≡ true) where
    insertar-Delante : (x : ℕ) (xs : List ℕ) → Delante xs → Delante (insertar x xs)
    unfolding insertar
    insertar-Delante x [] h = tt
    insertar-Delante x (y ∷ ys) h = elim (Bool-cases (best x y)) [
      | inl si ↦ rw si (si, All-best x y ys tr si h)
      | inr no_va ↦
          let al_reves : best y x ≡ true = ground (arith, total x y, no_va) in
          rw no_va (All-insertar (λ q. best y q ≡ true) x ys al_reves h)
    ]

    ordenar-Delante : (xs : List ℕ) → Delante (ordenar xs)
    unfolding ordenar
    ordenar-Delante [] = tt
    ordenar-Delante (x ∷ xs) = insertar-Delante x (ordenar xs) (ordenar-Delante xs)

    pub ordenar_head :
        (xs : List ℕ) (p : ℕ) (ps : List ℕ) → ordenar xs ≡ p ∷ ps → All (λ q. best p q ≡ true) ps
    ordenar_head xs p ps e = subst Delante e (ordenar-Delante xs)

abbrev pub insercion : Sorting
insercion = record {
  list_sort = ordenar;
  count-list_sort = λ best xs p. count-ordenar best xs p;
  length-list_sort = λ best xs. length-ordenar best xs;
  list_sort-head = λ best xs p ps total tr e. ordenar_head best total tr xs p ps e;
}
