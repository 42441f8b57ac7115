-- ===== src/Pruebas/Entorno.antt =====
-- Instances of the parameters: the comparison of the commons library as texts equal up to the case of
-- ASCII letters, a file system, whole numbers for `float`.
use tp_re_distinto_so.Base.{
  ℕ, ◌+◌, ◌*◌, ◌-◌, ◌/◌, ltb, ◌≤◌, ◌≡◌, refl, Bool, true, List, Option, none, some, Text, to_lower,
  str_eq, str_eq_refl, str_eq→eq, Commons, map, if◌then◌else◌, leb, ◌==◌, arith, length, replicate,
  length-replicate,
}
use tp_re_distinto_so.Instancia.Estado.{Sistema}
use tp_re_distinto_so.Planificador.Estado.{Floats}

unfoldable pub fold_eq : Text → Text → Bool
unfolding str_eq to_lower
fold_eq s t = str_eq (map to_lower s) (map to_lower t)

pub fold_eq_refl : (s : Text) → fold_eq s s ≡ true
unfolding fold_eq
fold_eq_refl s = str_eq_refl (map to_lower s)

pub fold_eq_symm : (s t : Text) → fold_eq s t ≡ true → fold_eq t s ≡ true
unfolding fold_eq
fold_eq_symm s t h =
    rw (str_eq→eq (map to_lower s) (map to_lower t) h) (str_eq_refl (map to_lower t))

pub fold_eq_trans : (s t u : Text) → fold_eq s t ≡ true → fold_eq t u ≡ true → fold_eq s u ≡ true
unfolding fold_eq
fold_eq_trans s t u h k = rw (str_eq→eq (map to_lower s) (map to_lower t) h) k

pub fold_eq_lower : (s t : Text) → fold_eq s t ≡ str_eq (map to_lower s) (map to_lower t)
unfolding fold_eq
fold_eq_lower s t = refl

abbrev pub ascii : Commons
ascii = record {
  equals_ignore_case = fold_eq;
  equals_refl = fold_eq_refl;
  equals_symm = fold_eq_symm;
  equals_trans = fold_eq_trans;
  equals_lower = fold_eq_lower;
}

-- A file system in which every map of some bytes is made.
unfoldable pub mapear_ceros : Text → ℕ → Option (ℕ × List ℕ)
mapear_ceros file_name n = if n == 0 then none else some (7, replicate (n + 2) 0)

pub mapear_ceros-length :
    (file_name : Text) (n fd : ℕ) (bs : List ℕ)
    → mapear_ceros file_name n ≡ some (fd, bs)
    → n ≤ length bs
unfolding mapear_ceros
mapear_ceros-length file_name n fd bs h = ground (arith, length-replicate {A = ℕ} (n + 2) 0)

pub mapear_ceros_zero : (file_name : Text) → mapear_ceros file_name 0 ≡ none
unfolding mapear_ceros
mapear_ceros_zero file_name = refl

abbrev pub archivos : Sistema
archivos = record {
  mapear = mapear_ceros;
  mapear_zero = mapear_ceros_zero;
  mapear_length = mapear_ceros-length;
}

-- Whole numbers, which suffice for estimations without a fraction.
abbrev pub enteros : Floats ℕ
enteros = record {
  of_int = λ n. n;
  trunc = λ x. x;
  add = λ x y. x + y;
  sub = λ x y. x - y;
  mul = λ x y. x * y;
  div = λ x y. x / y;
  le = leb;
  lt = ltb;
}
