-- ===== src/Instancia/Tabla/Espacio.antt =====
-- buscarEspacioLibre finds the first run of free entries that is long enough.
use tp_re_distinto_so.Base.{
  ℕ, zero, suc, ◌+◌, ◌-◌, ◌≤◌, ◌<◌, ◌≡◌, refl, sym, ◌∙◌, ap, inl, inr, true, false, List, [], ◌∷◌,
  ◌++◌, Option, none, some, Commons, leb, leb→le, ltb, ltb→lt, length, drop, arith, length-append,
  append_assoc, drop-append, Bool-cases, subst, length-drop,
}
use tp_re_distinto_so.Instancia.Estado.{Entrada, vacio}
use tp_re_distinto_so.Instancia.Tabla.{comienzo_de, espacio_desde, buscar_espacio_libre}

module _ (commons : Commons) where
  open commons use {equals_ignore_case}

  abbrev pub EsLibre : Entrada → Type 0
  EsLibre e = equals_ignore_case e.clave vacio ≡ true

  -- The list begins with n free entries.
  abbrev pub Libres : ℕ → List Entrada → Type 0
  Libres zero es = Unit
  Libres (suc n) [] = ⊥
  Libres (suc n) (e ∷ es) = EsLibre e × Libres n es

  Libres-le : (n : ℕ) (es : List Entrada) → Libres n es → n ≤ length es
  Libres-le zero es h = omega arith
  Libres-le (suc n) [] h = absurd h
  Libres-le (suc n) (e ∷ es) h = omega (arith, Libres-le n es h.1)

  Libres-append : (w es : List Entrada) (n : ℕ) → n ≡ length w → Libres n w → Libres n (w ++ es)
  Libres-append [] es zero e h = tt
  Libres-append [] es (suc n) e h = absurd (omega arith)
  Libres-append (x ∷ w) es zero e h = tt
  Libres-append (x ∷ w) es (suc n) e h = (h.0, Libres-append w es n (omega arith) h.1)

  Libres-snoc :
      (w : List Entrada) (e : Entrada) (n k : ℕ)
      → k ≡ suc n
      → n ≡ length w
      → Libres n w
      → EsLibre e
      → Libres k (w ++ e ∷ [])
  Libres-snoc w e n zero p q h l = tt
  Libres-snoc [] e n (suc k) p q h l = let z : k ≡ 0 = omega arith in rw z (l, tt)
  Libres-snoc (x ∷ w) e zero (suc k) p q h l = absurd (omega arith)
  Libres-snoc (x ∷ w) e (suc n) (suc k) p q h l =
      (h.0, Libres-snoc w e n k (omega arith) (omega arith) h.1 l)

  Libres-at :
      (n : ℕ) (w : List Entrada) (e : Entrada) (es : List Entrada) (j : ℕ)
      → Libres n (drop j (w ++ e ∷ es))
      → j ≤ length w
      → length w < j + n
      → EsLibre e
  Libres-at zero w e es j h p q = absurd (omega arith)
  Libres-at (suc n) [] e es zero h p q = h.0
  Libres-at (suc n) [] e es (suc j) h p q = absurd (omega arith)
  Libres-at (suc n) (x ∷ w) e es zero h p q =
      Libres-at n w e es zero h.1 (omega arith) (omega arith)
  Libres-at (suc n) (x ∷ w) e es (suc j) h p q =
      Libres-at (suc n) w e es j h (omega arith) (omega arith)

  espacio_nil : (n i lug : ℕ) (pos : Option ℕ) → espacio_desde commons n i pos lug [] ≡ none
  unfolding espacio_desde
  espacio_nil n i lug pos = refl

  -- A run that the entry e interrupts does not begin before it.
  libre_detras :
      (n : ℕ) (w : List Entrada) (e : Entrada) (es : List Entrada) (j : ℕ)
      → Libres n (drop j (w ++ e ∷ es))
      → length w < n
      → equals_ignore_case e.clave vacio ≡ false
      → suc (length w) ≤ j
  libre_detras n w e es j h lt no_libre = elim (Bool-cases (ltb (length w) j)) [
    | inl detras ↦ ltb→lt (length w) j detras
    | inr antes ↦ absurd (cc (Libres-at n w e es j h (ground arith) (omega arith)))
  ]

  module _ (n i lug : ℕ) (pos : Option ℕ) (e : Entrada) (es : List Entrada) where
    espacio_ocupada :
        equals_ignore_case e.clave vacio ≡ false
        → espacio_desde commons n i pos lug (e ∷ es) ≡ espacio_desde commons n (i + 1) none 0 es
    unfolding espacio_desde
    espacio_ocupada h = rw (h, espacio_desde)

    espacio_hallado :
        EsLibre e
        → leb n (lug + 1) ≡ true
        → espacio_desde commons n i pos lug (e ∷ es) ≡ some (comienzo_de pos i)
    unfolding espacio_desde
    espacio_hallado h k = rw (h, k, espacio_desde)

    espacio_sigue :
        EsLibre e
        → leb n (lug + 1) ≡ false
        → espacio_desde commons n i pos lug (e ∷ es)
          ≡ espacio_desde commons n (i + 1) (some (comienzo_de pos i)) (lug + 1) es
    unfolding espacio_desde
    espacio_sigue h k = rw (h, k, espacio_desde)

  -- The loop stands behind b and the run w of free entries, which is too short.
  espacio_sound :
      (n : ℕ) (es b w : List Entrada) (i lug : ℕ) (pos : Option ℕ) (p : ℕ)
      → i ≡ length b + length w
      → lug ≡ length w
      → lug < n
      → Libres lug w
      → comienzo_de pos i ≡ length b
      → espacio_desde commons n i pos lug es ≡ some p
      → Libres n (drop p (b ++ (w ++ es)))
  unfolding comienzo_de
  espacio_sound n [] b w i lug pos p ei el lt lw ec h = absurd (cc (espacio_nil n i lug pos))
  espacio_sound n (e ∷ es) b w i lug pos p ei el lt lw ec h =
      elim (Bool-cases (equals_ignore_case e.clave vacio)) [
        | inr no_libre ↦
            subst (λ xs. Libres n (drop p xs)) (simp append_assoc)
              (espacio_sound n es (b ++ (w ++ e ∷ [])) [] (i + 1) 0 none p
                (omega (arith, length-append b (w ++ e ∷ []), length-append w (e ∷ []))) refl
                (omega arith) tt
                (omega (arith, length-append b (w ++ e ∷ []), length-append w (e ∷ [])))
                (sym (espacio_ocupada n i lug pos e es no_libre) ∙ h))
        | inl libre ↦ elim (Bool-cases (leb n (lug + 1))) [
          | inl basta ↦
              let fin : some (length b) ≡ some p =
                ap some (sym ec) ∙ sym (espacio_hallado n i lug pos e es libre basta) ∙ h in
              let pe : length b ≡ p = cc in
              let pb : p ≡ length b + 0 = omega arith in
              let le : n ≤ lug + 1 = leb→le n (lug + 1) basta in
              rw (drop-append b (w ++ e ∷ es) 0 p pb) (
                subst (Libres n) (append_assoc w (e ∷ []) es) (
                  Libres-append (w ++ e ∷ []) es n (omega (arith, length-append w (e ∷ [])))
                    (Libres-snoc w e lug n (omega arith) el lw libre)))
          | inr falta ↦
              subst (λ xs. Libres n (drop p (b ++ xs))) (append_assoc w (e ∷ []) es)
                (espacio_sound n es b (w ++ e ∷ []) (i + 1) (lug + 1) (some (comienzo_de pos i)) p
                  (omega (arith, length-append w (e ∷ [])))
                  (omega (arith, length-append w (e ∷ []))) (ground arith)
                  (Libres-snoc w e lug (lug + 1) (omega arith) el lw libre) ec
                  (sym (espacio_sigue n i lug pos e es libre falta) ∙ h))
        ]
      ]

  -- A run of free entries that begins at b or behind it is not overlooked.
  espacio_first :
      (n : ℕ) (es b w : List Entrada) (i lug : ℕ) (pos : Option ℕ) (j : ℕ)
      → i ≡ length b + length w
      → lug ≡ length w
      → lug < n
      → comienzo_de pos i ≡ length b
      → Libres n (drop j (w ++ es))
      → (p : ℕ) × (espacio_desde commons n i pos lug es ≡ some p) × (p ≤ length b + j)
  unfolding comienzo_de
  espacio_first n [] b w i lug pos j ei el lt ec h =
      absurd (
        omega
          (arith, Libres-le n (drop j (w ++ [])) h, length-drop j (w ++ []), length-append w []))
  espacio_first n (e ∷ es) b w i lug pos j ei el lt ec h =
      elim (Bool-cases (equals_ignore_case e.clave vacio)) [
        | inr no_libre ↦
            let behind : suc (length w) ≤ j = libre_detras n w e es j h (omega arith) no_libre in
            let (p, q, le) =
              espacio_first n es (b ++ (w ++ e ∷ [])) [] (i + 1) 0 none (j - suc (length w))
                (omega (arith, length-append b (w ++ e ∷ []), length-append w (e ∷ []))) refl
                (omega arith)
                (omega (arith, length-append b (w ++ e ∷ []), length-append w (e ∷ [])))
                (subst (Libres n)
                  (drop-append w (e ∷ es) (suc (j - suc (length w))) j (omega arith)) h) in
            (
              p,
              espacio_ocupada n i lug pos e es no_libre ∙ q,
              omega (arith, length-append b (w ++ e ∷ []), length-append w (e ∷ [])),
            )
        | inl libre ↦ elim (Bool-cases (leb n (lug + 1))) [
          | inl basta ↦
              (length b, espacio_hallado n i lug pos e es libre basta ∙ ap some ec, omega arith)
          | inr falta ↦
              let (p, q, le) =
                espacio_first n es b (w ++ e ∷ []) (i + 1) (lug + 1) (some (comienzo_de pos i)) j
                  (omega (arith, length-append w (e ∷ [])))
                  (omega (arith, length-append w (e ∷ []))) (ground arith) ec
                  (subst (λ xs. Libres n (drop j xs)) (sym (append_assoc w (e ∷ []) es)) h) in
              (p, espacio_sigue n i lug pos e es libre falta ∙ q, le)
        ]
      ]

  -- With a run of free entries as long as a value of some pages wants, at a position q, the search
  -- gives a position where such a run begins, and none behind q: since q is any, the first one.
  pub buscar_espacio_libre-first :
      (tabla : List Entrada) (paginas q : ℕ)
      → 0 < paginas
      → Libres paginas (drop q tabla)
      → (p : ℕ) × (buscar_espacio_libre commons tabla paginas ≡ some p)
        × Libres paginas (drop p tabla)
        × (p ≤ q)
  unfolding buscar_espacio_libre comienzo_de
  buscar_espacio_libre-first tabla paginas q h libres =
      let (p, e, le) =
        espacio_first paginas tabla [] [] 0 0 none q (omega arith) refl h refl libres in
      (
        p,
        e,
        espacio_sound paginas tabla [] [] 0 0 none p (omega arith) refl h tt refl e,
        omega arith,
      )
