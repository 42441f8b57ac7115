-- ===== src/Instancia/Memoria/Paginas.antt =====
-- getCantPaginas rounds up, and what guardarEnMem writes can be read back.
use native.Mathlib.Nat.{div-add-mod', mod-lt}
use tp_re_distinto_so.Base.{
  ℕ, ◌+◌, ◌*◌, ◌/◌, ◌%◌, ◌≤◌, ◌<◌, ◌≡◌, ◌∙◌, ap, List, [], ◌∷◌, ◌++◌, Text, done, ◌==◌, leb, le→leb,
  length, take, drop, get_elem?, some, arith, length-append, length-take, length-drop, append_assoc,
  drop-append, get_elem?-append, get_elem?-length, subst, fault, ==_iff, Bool-cases, inl, inr, ◌≢◌,
  false, ltb, ltb→lt, take-length,
}
use tp_re_distinto_so.Instancia.Memoria.Copias.{page-le}
use tp_re_distinto_so.Instancia.Memoria.{get_cant_paginas, write_bytes, read_bytes, guardar_en_mem}

module _ (t n : ℕ) (h : 0 < t) where
  division : n / t * t + n % t ≡ n
  division = div-add-mod' n t

  exacta-least : n % t ≡ 0 → (q : ℕ) → n ≤ q * t → n / t ≤ q
  exacta-least e q k = elim (Bool-cases (ltb q (n / t))) [
    | inl lt ↦
        absurd (omega (arith, division, page-le q (n / t) t t (ltb→lt q (n / t) lt) (omega arith)))
    | inr le ↦ ground arith
  ]

  inexacta-least : n % t ≢ 0 → (q : ℕ) → n ≤ q * t → n / t + 1 ≤ q
  inexacta-least e q k = elim (Bool-cases (ltb q (n / t + 1))) [
    | inl lt ↦
        absurd (
          omega
            (arith, division, page-le q (n / t + 1) t t (ltb→lt q (n / t + 1) lt) (omega arith)))
    | inr le ↦ ground arith
  ]

-- With entries of some bytes the pages are the least number of entries that hold the size.
pub get_cant_paginas-ceil :
    (t n : ℕ)
    → 0 < t
    → (p : ℕ) × (get_cant_paginas t n ≡ done p) × (n ≤ p * t) × ((q : ℕ) → n ≤ q * t → p ≤ q)
unfolding get_cant_paginas
get_cant_paginas-ceil t n h =
    let positive : (t == 0) ≡ false = ground arith in
    elim (Bool-cases (n % t == 0)) [
      | inl exacta ↦ (
        n / t,
        rw (positive, exacta),
        omega (arith, division t n h, (==_iff (n % t) 0).0 exacta),
        exacta-least t n h ((==_iff (n % t) 0).0 exacta),
      )
      | inr inexacta ↦ (
        n / t + 1,
        rw (positive, inexacta),
        omega (arith, division t n h, mod-lt n h),
        inexacta-least t n h (ground arith),
      )
    ]

-- Reads of a storage that is `pre`, a text with its NUL, and `post`.
module _ (pre post : List ℕ) (valor : Text) (p : ℕ) (at_p : length pre ≡ p) where
  escrito : List ℕ
  escrito = pre ++ ((valor ++ 0 ∷ []) ++ post)

  length-escrito : length escrito ≡ p + length valor + 1 + length post
  unfolding escrito
  length-escrito = omega (
    arith,
    length-append pre ((valor ++ 0 ∷ []) ++ post),
    length-append (valor ++ 0 ∷ []) post,
    length-append valor (0 ∷ []),
  )

  drop-escrito : drop p escrito ≡ valor ++ (0 ∷ post)
  unfolding escrito
  drop-escrito =
      drop-append pre ((valor ++ 0 ∷ []) ++ post) 0 p (omega arith)
      ∙ append_assoc valor (0 ∷ []) post

  read_escrito : read_bytes escrito p (length valor) ≡ done valor
  unfolding read_bytes
  read_escrito = rw (
    le→leb (p + length valor) (length escrito) (omega (arith, length-escrito)),
    drop-escrito,
    take-length valor (0 ∷ post),
  )

  nul_escrito : get_elem? escrito (p + length valor) ≡ some 0
  unfolding escrito
  nul_escrito =
      get_elem?-append pre ((valor ++ 0 ∷ []) ++ post) (length valor) (p + length valor)
        (omega arith)
      ∙ rw (append_assoc valor (0 ∷ []) post) (get_elem?-length valor 0 post)

  take-escrito : take p escrito ≡ pre
  unfolding escrito
  take-escrito =
      subst (λ k. take k (pre ++ ((valor ++ 0 ∷ []) ++ post)) ≡ pre) at_p
        (take-length pre ((valor ++ 0 ∷ []) ++ post))

  drop_detras : drop (p + length valor + 1) escrito ≡ post
  unfolding escrito
  drop_detras =
      drop-append pre ((valor ++ 0 ∷ []) ++ post) (length valor + 1) (p + length valor + 1)
        (omega arith)
      ∙ drop-append (valor ++ 0 ∷ []) post 0 (length valor + 1)
          (omega (arith, length-append valor (0 ∷ [])))

-- Where the storage has room for the value and its NUL, the value is read back at its position, the
-- NUL stands behind it, the bytes before the position and behind the NUL stay, and so does the size.
pub guardar_en_mem-read :
    (t : ℕ) (mem : List ℕ) (valor : Text) (posicion : ℕ)
    → posicion * t + length valor + 1 ≤ length mem
    → (m : List ℕ) × (guardar_en_mem t mem valor posicion ≡ done m)
      × (read_bytes m (posicion * t) (length valor) ≡ done valor)
      × (get_elem? m (posicion * t + length valor) ≡ some 0)
      × (take (posicion * t) m ≡ take (posicion * t) mem)
      × (drop (posicion * t + length valor + 1) m ≡ drop (posicion * t + length valor + 1) mem)
      × (length m ≡ length mem)
unfolding guardar_en_mem write_bytes escrito
guardar_en_mem-read t mem valor posicion h =
    let p : ℕ = posicion * t in
    let post : List ℕ = drop (p + length (valor ++ 0 ∷ [])) mem in
    let pre : List ℕ = take p mem in
    let n : length (valor ++ 0 ∷ []) ≡ length valor + 1 = length-append valor (0 ∷ []) in
    let at_p : length pre ≡ p = omega (arith, length-take p mem) in
    let same : p + length (valor ++ 0 ∷ []) ≡ p + length valor + 1 = omega arith in
    (
      escrito pre post valor p at_p,
      rw (le→leb (p + length (valor ++ 0 ∷ [])) (length mem) (omega arith)),
      read_escrito pre post valor p at_p,
      nul_escrito pre post valor p at_p,
      take-escrito pre post valor p at_p,
      drop_detras pre post valor p at_p ∙ ap (λ k. drop k mem) same,
      omega (
        arith,
        length-escrito pre post valor p at_p,
        length-drop (p + length (valor ++ 0 ∷ [])) mem,
      ),
    )

-- A value that fills its pages, which are the last ones of the storage, is written past the end: the
-- NUL has no room.
pub guardar_en_mem-overflow :
    (t cant : ℕ) (mem : List ℕ) (valor : Text) (posicion paginas : ℕ)
    → length mem ≡ cant * t
    → posicion + paginas ≡ cant
    → length valor ≡ paginas * t
    → guardar_en_mem t mem valor posicion ≡ fault
unfolding guardar_en_mem write_bytes
guardar_en_mem-overflow t cant mem valor posicion paginas lm e lv =
    let past : leb (posicion * t + length (valor ++ 0 ∷ [])) (length mem) ≡ false =
      ground (arith, length-append valor (0 ∷ []), ap (λ k. k * t) e) in
    rw past
