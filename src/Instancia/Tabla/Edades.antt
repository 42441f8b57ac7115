-- ===== src/Instancia/Tabla/Edades.antt =====
-- consultarTablaLRU ages the table, finds what consultarTabla finds and gives the greatest age.
use tp_re_distinto_so.Base.{
  ℕ, ◌+◌, ◌≡◌, refl, ap, inl, inr, true, false, List, [], ◌∷◌, Option, none, some, Text, Commons,
  if◌then◌else◌, ltb, ◌⊎◌, codes, str_eq, negsuc, next, map, All, arith, ℤ, pos, ltz, Bool-cases,
}
use tp_re_distinto_so.Instancia.Estado.{Entrada}
use tp_re_distinto_so.Instancia.Tabla.{
  envejecer, consultar_desde, consultar_tabla, primera, consultar_lru_desde, consultar_tabla_lru,
}

ltz_irrefl : (a : ℤ) → ltz a a ≡ false
ltz_irrefl a = ground arith

-- a ≤ b and b ≤ c give a ≤ c, as tests.
ltz_trans : (a b c : ℤ) → ltz b a ≡ false → ltz c b ≡ false → ltz c a ≡ false
ltz_trans a b c h k = ground arith

ltz_asymm : (a b : ℤ) → ltz a b ≡ true → ltz b a ≡ false
ltz_asymm a b h = ground arith

-- A bound of the greater of two ages is a bound of both.
ltz-max_left : (v a m : ℤ) → ltz m (if ltz v a then a else v) ≡ false → ltz m v ≡ false
ltz-max_left v a m h = elim (Bool-cases (ltz v a)) [
  | inl lt ↦ ltz_trans v a m (ltz_asymm v a lt) (rw lt at h)
  | inr le ↦ rw le at h
]

ltz-max_right : (v a m : ℤ) → ltz m (if ltz v a then a else v) ≡ false → ltz m a ≡ false
ltz-max_right v a m h = elim (Bool-cases (ltz v a)) [
  | inl lt ↦ rw lt at h
  | inr le ↦ ltz_trans a v m le (rw le at h)
]

-- The entry with its new age.
abbrev pub un_turno_mas : ℕ → Entrada → Entrada
un_turno_mas t e = record e {
  age =
      if ltb t e.tamanio
      then negsuc 0
      else (if str_eq e.clave (codes "vacio") then e.age else next e.age);
}

-- The age is that of an entry, or the one to begin with.
abbrev pub Alcanzada : ℤ → ℤ → List Entrada → Type 0
Alcanzada desde m [] = m ≡ desde
Alcanzada desde m (e ∷ es) = (m ≡ e.age) ⊎ Alcanzada desde m es

Alcanzada-desde :
    (desde a m : ℤ) (es : List Entrada) → Alcanzada a m es → (m ≡ a) ⊎ Alcanzada desde m es
Alcanzada-desde desde a m [] h = inl h
Alcanzada-desde desde a m (e ∷ es) (inl h) = inr (inl h)
Alcanzada-desde desde a m (e ∷ es) (inr h) = elim (Alcanzada-desde desde a m es h) [
  | inl k ↦ inl k
  | inr k ↦ inr (inr k)
]

Alcanzada-mayor :
    (desde a m : ℤ) (es : List Entrada)
    → Alcanzada (if ltz desde a then a else desde) m es
    → (m ≡ a) ⊎ Alcanzada desde m es
Alcanzada-mayor desde a m es h = elim (Bool-cases (ltz desde a)) [
  | inl lt ↦ Alcanzada-desde desde a m es (rw lt at h)
  | inr le ↦ inr (rw le at h)
]

module _ (commons : Commons) (t : ℕ) (clave : Text) where
  lru_tabla :
      (es : List Entrada) (i : ℕ) (vieja : ℤ) (r : Option ℕ)
      → (consultar_lru_desde commons t clave i vieja r es).tabla ≡ map (un_turno_mas t) es
  unfolding consultar_lru_desde envejecer
  lru_tabla [] i vieja r = refl
  lru_tabla (e ∷ es) i vieja r = ap (◌∷◌ (un_turno_mas t e)) (lru_tabla es _ _ _)

  lru_posicion_some :
      (es : List Entrada) (i : ℕ) (vieja : ℤ) (p : ℕ)
      → (consultar_lru_desde commons t clave i vieja (some p) es).posicion ≡ some p
  unfolding consultar_lru_desde primera
  lru_posicion_some [] i vieja p = refl
  lru_posicion_some (e ∷ es) i vieja p = lru_posicion_some es _ _ p

  lru_posicion :
      (es : List Entrada) (i : ℕ) (vieja : ℤ)
      → (consultar_lru_desde commons t clave i vieja none es).posicion
        ≡ consultar_desde commons clave i es
  unfolding consultar_lru_desde consultar_desde primera envejecer
  lru_posicion [] i vieja = refl
  lru_posicion (e ∷ es) i vieja = elim (Bool-cases (commons.equals_ignore_case e.clave clave)) [
    | inl si ↦ rw si (lru_posicion_some es _ _ i)
    | inr otra ↦ rw otra (lru_posicion es _ _)
  ]

  lru_maxima :
      (es : List Entrada) (i : ℕ) (vieja : ℤ) (r : Option ℕ)
      → let c = consultar_lru_desde commons t clave i vieja r es in
        All (λ e. ltz c.la_mas_vieja e.age ≡ false) c.tabla × (ltz c.la_mas_vieja vieja ≡ false)
  unfolding consultar_lru_desde
  lru_maxima [] i vieja r = (tt, ltz_irrefl vieja)
  lru_maxima (e ∷ es) i vieja r =
      let e' = envejecer t e in
      let (rest, start) =
        lru_maxima es (i + 1) (if ltz vieja e'.age then e'.age else vieja)
          (primera r (commons.equals_ignore_case e'.clave clave) i) in
      ((ltz-max_right vieja e'.age _ start, rest), ltz-max_left vieja e'.age _ start)

  lru_Alcanzada :
      (es : List Entrada) (i : ℕ) (vieja : ℤ) (r : Option ℕ)
      → let c = consultar_lru_desde commons t clave i vieja r es in
        Alcanzada vieja c.la_mas_vieja c.tabla
  unfolding consultar_lru_desde
  lru_Alcanzada [] i vieja r = refl
  lru_Alcanzada (e ∷ es) i vieja r =
      let e' = envejecer t e in
      Alcanzada-mayor vieja e'.age _ _ (
        lru_Alcanzada es (i + 1) (if ltz vieja e'.age then e'.age else vieja)
          (primera r (commons.equals_ignore_case e'.clave clave) i))

  -- consultarTablaLRU adds one to the age of each entry but the free ones, sets to -1 the age of those
  -- whose value is longer than an entry, finds the position that consultarTabla finds, and gives as the
  -- greatest age one that is not below any age of the aged table, nor below 0, and that is 0 or the age
  -- of an entry.
  pub consultar_tabla_lru_lem :
      (tabla : List Entrada)
      → let c = consultar_tabla_lru commons t tabla clave in
        (c.tabla ≡ map (un_turno_mas t) tabla)
        × (c.posicion ≡ consultar_tabla commons tabla clave)
        × All (λ e. ltz c.la_mas_vieja e.age ≡ false) c.tabla
        × (ltz c.la_mas_vieja (pos 0) ≡ false)
        × Alcanzada (pos 0) c.la_mas_vieja c.tabla
  unfolding consultar_tabla_lru consultar_tabla
  consultar_tabla_lru_lem tabla =
      let (cota, desde) = lru_maxima tabla 0 (pos 0) none in
      (
        lru_tabla tabla 0 (pos 0) none,
        lru_posicion tabla 0 (pos 0),
        cota,
        desde,
        lru_Alcanzada tabla 0 (pos 0) none,
      )
