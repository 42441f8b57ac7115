-- ===== src/Base/Sorts.antt =====
-- list_sort of the commons library, on lists of pointers, and what it keeps.
use Prim.Native.Nat.{ℕ, suc, ◌<◌, ◌+◌}
use mathlib.Core.Path.{◌≡◌, sym, subst}
use mathlib.Core.Logic.{inl, inr}
use mathlib.Core.Bool.{Bool, true, ◌||◌}
use mathlib.Core.List.{List, [], ◌∷◌, ◌++◌}
use native.Mathlib.Omega.{arith}
use tp_re_distinto_so.Base.Tests.{if◌then◌else◌, ◌==◌, ==_iff, Bool-cases}
use tp_re_distinto_so.Base.Lists.{All, length}

-- How often a pointer stands in a list.
abbrev pub count : ℕ → List ℕ → ℕ
count p [] = 0
count p (x ∷ xs) = if x == p then suc (count p xs) else count p xs

pub count-append : (p : ℕ) (xs ys : List ℕ) → count p (xs ++ ys) ≡ count p xs + count p ys
count-append p [] ys = omega arith
count-append p (x ∷ xs) ys = ground (arith, count-append p xs ys)

-- list_sort of the commons library, which by its documentation puts the list in the order of the
-- comparator: the elements stay the same, as many as they were, and the first one goes before all
-- others, where the comparator is an order.
pub record Sorting : Type 0 where
  pub list_sort : (ℕ → ℕ → Bool) → List ℕ → List ℕ
  pub count-list_sort :
      (best : ℕ → ℕ → Bool) (xs : List ℕ) (p : ℕ) → count p (list_sort best xs) ≡ count p xs
  pub length-list_sort :
      (best : ℕ → ℕ → Bool) (xs : List ℕ) → length (list_sort best xs) ≡ length xs
  pub list_sort-head :
      (best : ℕ → ℕ → Bool) (xs : List ℕ) (p : ℕ) (ps : List ℕ)
      → ((a b : ℕ) → (best a b || best b a) ≡ true)
      → ((a b c : ℕ) → best a b ≡ true → best b c ≡ true → best a c ≡ true)
      → list_sort best xs ≡ p ∷ ps
      → All (λ q. best p q ≡ true) ps

module _ {κ} (P : ℕ → Type κ) where
  -- What holds of all pointers of a list holds of each that stands in it, and conversely.
  All→count : (xs : List ℕ) (p : ℕ) → All P xs → 0 < count p xs → P p
  All→count [] p h lt = absurd (omega arith)
  All→count (x ∷ xs) p h lt = elim (Bool-cases (x == p)) [
    | inl y ↦ subst P ((==_iff x p).0 y) h.0
    | inr n ↦ All→count xs p h.1 (rw n at lt)
  ]

  cuenta_mayor : (x p : ℕ) (xs : List ℕ) → 0 < count p xs → 0 < count p (x ∷ xs)
  cuenta_mayor x p xs h = ground arith

  count→All : (xs : List ℕ) → ((p : ℕ) → 0 < count p xs → P p) → All P xs
  count→All [] h = tt
  count→All (x ∷ xs) h = (h x (ground arith), count→All xs (λ p lt. h p (cuenta_mayor x p xs lt)))

  pub All-list_sort :
      (sorting : Sorting) (best : ℕ → ℕ → Bool) (xs : List ℕ)
      → All P xs
      → All P (sorting.list_sort best xs)
  All-list_sort sorting best xs h =
      count→All (sorting.list_sort best xs)
        (λ p lt. All→count xs p h (subst (λ n. 0 < n) (sorting.count-list_sort best xs p) lt))

  pub All-list_sort_back :
      (sorting : Sorting) (best : ℕ → ℕ → Bool) (xs : List ℕ)
      → All P (sorting.list_sort best xs)
      → All P xs
  All-list_sort_back sorting best xs h = count→All xs (λ p lt.
      All→count (sorting.list_sort best xs) p h
        (subst (λ n. 0 < n) (sym (sorting.count-list_sort best xs p)) lt))
