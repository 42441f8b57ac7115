-- ===== src/Base/Searches.antt =====
-- The searches over lists: what their results say of the list, and what a change leaves of it.
use Prim.Native.Nat.{ℕ, zero, suc}
use mathlib.Core.Path.{◌≡◌, refl, ap, subst}
use mathlib.Core.Logic.{inl, inr}
use mathlib.Core.Bool.{Bool, true, false, ◌||◌, not}
use mathlib.Core.Option.{none, some}
use mathlib.Core.List.{List, [], ◌∷◌, ◌++◌}
use native.Mathlib.Omega.{arith}
use tp_re_distinto_so.Base.Tests.{Bool-cases}
use tp_re_distinto_so.Base.Lists.{
  find_first, remove_first, update_first, update_at, any_satisfy, All, keep, length,
}

module _ {ℓ} {A : Type ℓ} where
  pub any-none : (p : A → Bool) (xs : List A) → find_first p xs ≡ none → any_satisfy p xs ≡ false
  any-none p [] h = refl
  any-none p (x ∷ xs) h = elim (Bool-cases (p x)) [
    | inl y ↦ absurd (let e : some x ≡ none = rw y at h in cc)
    | inr n ↦ rw n (any-none p xs (rw n at h))
  ]

  pub any-some :
      (p : A → Bool) (xs : List A) (a : A) → find_first p xs ≡ some a → any_satisfy p xs ≡ true
  any-some p [] a h = cc
  any-some p (x ∷ xs) a h = elim (Bool-cases (p x)) [
    | inl y ↦ rw y
    | inr n ↦ rw n (any-some p xs a (rw n at h))
  ]

  pub any-append :
      (p : A → Bool) (xs ys : List A)
      → any_satisfy p (xs ++ ys) ≡ any_satisfy p xs || any_satisfy p ys
  any-append p [] ys = refl
  any-append p (x ∷ xs) ys = ground (arith, any-append p xs ys)

  -- What no element satisfies, none of fewer does.
  pub any-remove_first :
      (p q : A → Bool) (xs : List A)
      → any_satisfy q xs ≡ false
      → any_satisfy q (remove_first p xs) ≡ false
  any-remove_first p q [] h = refl
  any-remove_first p q (x ∷ xs) h = ground (arith, any-remove_first p q xs)

  pub All-remove_first {κ} :
      (P : A → Type κ) (p : A → Bool) (xs : List A) → All P xs → All P (remove_first p xs)
  All-remove_first P p [] h = tt
  All-remove_first P p (x ∷ xs) h = elim (Bool-cases (p x)) [
    | inl y ↦ rw y h.1
    | inr n ↦ rw n (h.0, All-remove_first P p xs h.1)
  ]

  pub All-update_first {κ} :
      (P : A → Type κ) (p : A → Bool) (f : A → A) (xs : List A)
      → ((a : A) → P a → P (f a))
      → All P xs
      → All P (update_first p f xs)
  All-update_first P p f [] keeps h = tt
  All-update_first P p f (x ∷ xs) keeps h = elim (Bool-cases (p x)) [
    | inl y ↦ rw y (keeps x h.0, h.1)
    | inr n ↦ rw n (h.0, All-update_first P p f xs keeps h.1)
  ]

  pub any-update_first :
      (q p : A → Bool) (f : A → A) (xs : List A)
      → ((a : A) → q (f a) ≡ q a)
      → any_satisfy q (update_first p f xs) ≡ any_satisfy q xs
  any-update_first q p f [] same = refl
  any-update_first q p f (x ∷ xs) same = elim (Bool-cases (p x)) [
    | inl y ↦ rw (y, same x)
    | inr n ↦ rw (n, any-update_first q p f xs same)
  ]

module _ {ℓ} {A : Type ℓ} where
  pub find-update_first :
      (p : A → Bool) (f : A → A) (xs : List A) (a : A)
      → ((b : A) → p (f b) ≡ p b)
      → find_first p xs ≡ some a
      → find_first p (update_first p f xs) ≡ some (f a)
  find-update_first p f [] a same h = cc
  find-update_first p f (x ∷ xs) a same h = elim (Bool-cases (p x)) [
    | inl y ↦
        let e : some x ≡ some a = rw y at h in
        let e' : x ≡ a = cc in rw (y, same x, y) (ap (λ b. some (f b)) e')
    | inr n ↦ rw (n, n) (find-update_first p f xs a same (rw n at h))
  ]

  pub find_of_any :
      (p : A → Bool) (xs : List A) → any_satisfy p xs ≡ true → (a : A) × (find_first p xs ≡ some a)
  find_of_any p [] h = cc
  find_of_any p (x ∷ xs) h = elim (Bool-cases (p x)) [
    | inl y ↦ (x, rw y)
    | inr n ↦ let (a, e) = find_of_any p xs (rw n at h) in (a, rw n e)
  ]

  pub keep-remove_first :
      (p : A → Bool) (xs : List A)
      → keep (λ x. not (p x)) (remove_first p xs) ≡ keep (λ x. not (p x)) xs
  keep-remove_first p [] = refl
  keep-remove_first p (x ∷ xs) = ground (arith, keep-remove_first p xs)

  pub keep-none :
      (p : A → Bool) (xs : List A) → find_first p xs ≡ none → keep (λ x. not (p x)) xs ≡ xs
  keep-none p [] h = refl
  keep-none p (x ∷ xs) h = elim (Bool-cases (p x)) [
    | inl y ↦ absurd (let e : some x ≡ none = rw y at h in cc)
    | inr n ↦ rw n (ap (◌∷◌ x) (keep-none p xs (rw n at h)))
  ]

  pub length-remove_first :
      (p : A → Bool) (xs : List A) (a : A)
      → find_first p xs ≡ some a
      → suc (length (remove_first p xs)) ≡ length xs
  length-remove_first p [] a h = cc
  length-remove_first p (x ∷ xs) a h = elim (Bool-cases (p x)) [
    | inl y ↦ rw y
    | inr n ↦ rw n (ap suc (length-remove_first p xs a (rw n at h)))
  ]

  pub All-find_first {κ} :
      (P : A → Type κ) (p : A → Bool) (xs : List A) (a : A)
      → All P xs
      → find_first p xs ≡ some a
      → P a
  All-find_first P p [] a h e = cc
  All-find_first P p (x ∷ xs) a h e = elim (Bool-cases (p x)) [
    | inl y ↦ let e' : some x ≡ some a = rw y at e in subst P (cc) h.0
    | inr n ↦ All-find_first P p xs a h.1 (rw n at e)
  ]

  pub length-update_first :
      (p : A → Bool) (f : A → A) (xs : List A) → length (update_first p f xs) ≡ length xs
  length-update_first p f [] = refl
  length-update_first p f (x ∷ xs) = elim (Bool-cases (p x)) [
    | inl y ↦ rw y
    | inr n ↦ rw n (ap suc (length-update_first p f xs))
  ]

  pub length-update_at : (i : ℕ) (f : A → A) (xs : List A) → length (update_at i f xs) ≡ length xs
  length-update_at i f [] = refl
  length-update_at zero f (x ∷ xs) = refl
  length-update_at (suc i) f (x ∷ xs) = ap suc (length-update_at i f xs)
