-- ===== src/Planificador/Consola/Listado.antt =====
-- list_blocked_esis takes every ESI from the queue and puts it back.
use tp_re_distinto_so.Base.{
  ℕ, ◌≡◌, refl, sym, ◌∙◌, ap, Bool, true, false, List, [], ◌∷◌, ◌++◌, Option, none, some, Text,
  Commons, Outcome, done, ◌>>=◌, find_first, update_first, length, append_assoc, append-nil,
  Bool-cases, inl, inr, if◌then◌else◌,
}
use tp_re_distinto_so.Planificador.Estado.{ClaveBloqueada, Estado, load}
use tp_re_distinto_so.Planificador.Claves.{tiene_key, find_by_key}
use tp_re_distinto_so.Planificador.Consola.{rotar, nombres, list_blocked_esis}

rotar-append : (xs ys : List ℕ) → rotar (length xs) (xs ++ ys) ≡ ys ++ xs
unfolding rotar
rotar-append [] ys = sym (append-nil ys)
rotar-append (x ∷ xs) ys =
    ap (rotar (length xs)) (append_assoc xs ys (x ∷ []))
    ∙ rotar-append xs (ys ++ x ∷ [])
    ∙ append_assoc ys (x ∷ []) xs

rotar-length : (xs : List ℕ) → rotar (length xs) xs ≡ xs
rotar-length xs = ap (rotar (length xs)) (sym (append-nil xs)) ∙ rotar-append xs []

inyectiva {ℓ} : {A : Type ℓ} (x a : A) → some x ≡ some a → x ≡ a
inyectiva x a e = cc

si_cierto {ℓ} : {A : Type ℓ} (b : Bool) (u v : A) → b ≡ true → (if b then u else v) ≡ u
si_cierto b u v e = rw e refl

si_falso {ℓ} : {A : Type ℓ} (b : Bool) (u v : A) → b ≡ false → (if b then u else v) ≡ v
si_falso b u v e = rw e refl

-- A change of the first one that changes nothing.
update_first-fixed {ℓ} :
    {A : Type ℓ} (t : A → Bool) (f : A → A) (xs : List A) (a : A)
    → find_first t xs ≡ some a
    → f a ≡ a
    → update_first t f xs ≡ xs
update_first-fixed t f [] a e h = refl
update_first-fixed t f (x ∷ xs) a e h = elim (Bool-cases (t x)) [
  | inl y ↦ rw y (
      ap (λ z. z ∷ xs)
        (let x-a : x ≡ a = inyectiva x a (sym (si_cierto (t x) (some x) (find_first t xs) y) ∙ e) in
          ap f x-a ∙ h ∙ sym x-a))
  | inr n ↦ rw n (
      ap (λ zs. x ∷ zs)
        (update_first-fixed t f xs a (sym (si_falso (t x) (some x) (find_first t xs) n) ∙ e) h))
]

-- The names of a queue, from its front on.
pub en_orden : {F : Type 0} → Estado F → List ℕ → Outcome (List Text)
en_orden s [] = done []
en_orden s (p ∷ ps) = do otro ← load s p; rest ← en_orden s ps; done (otro.name ∷ rest)

nombres-append :
    {F : Type 0}
    → (commons : Commons) (s : Estado F) (xs ys : List ℕ)
    → nombres commons s (length xs) (xs ++ ys) ≡ en_orden s xs
unfolding nombres en_orden
nombres-append commons s [] ys = refl
nombres-append commons s (x ∷ xs) ys =
    ap (λ r. load s x >>= λ otro. r >>= λ rest. done (otro.name ∷ rest))
      (ap (nombres commons s (length xs)) (append_assoc xs ys (x ∷ []))
        ∙ nombres-append commons s xs (ys ++ x ∷ []))

nombres-length :
    {F : Type 0}
    → (commons : Commons) (s : Estado F) (xs : List ℕ)
    → nombres commons s (length xs) xs ≡ en_orden s xs
nombres-length commons s xs =
    ap (nombres commons s (length xs)) (sym (append-nil xs)) ∙ nombres-append commons s xs []

-- The queue of a key is turned round once, so the list of the keys stays as it is.
lista-igual :
    {F : Type 0}
    → (commons : Commons) (resource : Text) (s : Estado F) (k : ClaveBloqueada)
    → find_first (tiene_key commons resource) s.lista_bloqueados ≡ some k
    → let cola = k.cola_esis_bloqueados in
      record s {
        lista_bloqueados =
            update_first
              (tiene_key commons resource)
              (λ k. record k { cola_esis_bloqueados = rotar (length cola) cola })
              s.lista_bloqueados;
      }
      ≡ s
lista-igual commons resource s k e =
    ap (λ l. record s { lista_bloqueados = l })
      (update_first-fixed (tiene_key commons resource) _ s.lista_bloqueados k e
        (ap (λ c. record k { cola_esis_bloqueados = c }) (rotar-length k.cola_esis_bloqueados)))

en_ambos {ℓ κ} :
    {A : Type ℓ} {B : Type κ} (o : Option A) (m : B) (f g : A → B)
    → ((a : A) → o ≡ some a → f a ≡ g a)
    → (elim o [ none ↦ m | some a ↦ f a ]) ≡ (elim o [ none ↦ m | some a ↦ g a ])
en_ambos none m f g h = refl
en_ambos (some a) m f g h = h a refl

-- The command LIST leaves the scheduler as it was, and gives the names of the ESIs that wait for the
-- key, in the order of its queue; it faults only if a pointer of the queue is bad.
pub list_blocked_esis-same :
    {F : Type 0}
    → (commons : Commons) (resource : Text) (s : Estado F)
    → list_blocked_esis commons resource s
      ≡ elim (find_by_key commons s.lista_bloqueados resource) [
        | none ↦ done (s, [])
        | some k ↦ (en_orden s k.cola_esis_bloqueados >>= λ ns. done (s, ns))
      ]
unfolding list_blocked_esis find_by_key
list_blocked_esis-same commons resource s =
    en_ambos (find_first (tiene_key commons resource) s.lista_bloqueados) (done (s, [])) _ _ (λ k e.
      let cola = k.cola_esis_bloqueados in
      let u = record s {
        lista_bloqueados =
            update_first (tiene_key commons resource)
              (λ q. record q { cola_esis_bloqueados = rotar (length cola) cola })
              s.lista_bloqueados;
      } in
      ap (λ r. r >>= λ ns. done (u, ns)) (nombres-length commons s k.cola_esis_bloqueados)
      ∙ ap (λ t. en_orden s k.cola_esis_bloqueados >>= λ ns. done (t, ns))
          (lista-igual commons resource s k e))
