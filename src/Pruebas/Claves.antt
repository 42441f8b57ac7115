-- ===== src/Pruebas/Claves.antt =====
-- An instance of the dictionaries: a list of keys that are compared by strcmp.
use tp_re_distinto_so.Base.{
  ◌≡◌, refl, sym, ◌∙◌, ap, Bool, true, false, not, ◌&&◌, ◌||◌, List, [], ◌∷◌, Text, str_eq,
  str_eq_refl, str_eq→eq, any_satisfy, if◌then◌else◌, Bool-cases, inl, inr,
}
use tp_re_distinto_so.Coordinador.Claves.{Dictionary}

abbrev esta : List Text → Text → Bool
esta d j = any_satisfy (λ k. str_eq k j) d

abbrev sacar : List Text → Text → List Text
sacar [] k = []
sacar (x ∷ d) k = if str_eq k x then sacar d k else x ∷ sacar d k

igual : (k x j : Text) → str_eq k x ≡ true → str_eq k j ≡ str_eq x j
igual k x j e = ap (λ y. str_eq y j) (str_eq→eq k x e)

otro : (k x j : Text) → str_eq k x ≡ false → str_eq x j ≡ true → str_eq k j ≡ false
otro k x j e h = ap (str_eq k) (sym (str_eq→eq x j h)) ∙ e

nada : (b : Bool) → false ≡ (not b && false)
nada true = refl
nada false = refl

unir : (a b h : Bool) → a ≡ b → (not a && h) ≡ (not a && (b || h))
unir true b h e = refl
unir false true h e = cc
unir false false h e = refl

separar : (a b h : Bool) → (b ≡ true → a ≡ false) → (b || (not a && h)) ≡ (not a && (b || h))
separar a true h e = rw (e refl) refl
separar a false h e = refl

pub esta-sacar : (d : List Text) (k j : Text) → esta (sacar d k) j ≡ (not (str_eq k j) && esta d j)
esta-sacar [] k j = nada (str_eq k j)
esta-sacar (x ∷ d) k j = elim (Bool-cases (str_eq k x)) [
  | inl e ↦ rw e (esta-sacar d k j ∙ unir (str_eq k j) (str_eq x j) (esta d j) (igual k x j e))
  | inr e ↦ rw e (
      ap (λ b. str_eq x j || b) (esta-sacar d k j)
      ∙ separar (str_eq k j) (str_eq x j) (esta d j) (otro k x j e))
]

abbrev pub claves : Dictionary
claves = record {
  same = str_eq;
  has_key = esta;
  put = λ d k. k ∷ d;
  remove = sacar;
  same_refl = str_eq_refl;
  has_key_nil = λ k. refl;
  has_key-put = λ d k j. refl;
  has_key-remove = esta-sacar;
}
