-- ===== src/Planificador/Claves/Listas.antt =====
-- Lemmas on the lists of keys: who holds a key, and which keys are registered.
use tp_re_distinto_so.Base.{
  any-append, any-remove_first, ◌≡◌, refl, ◌∙◌, Bool, true, false, List, [], ◌∷◌, ◌++◌, Text,
  Commons, remove_first, any_satisfy, All, arith, inl, inr, Bool-cases,
}
use tp_re_distinto_so.Planificador.Estado.{ClaveBloqueada, ClavePorEsi}
use tp_re_distinto_so.Planificador.Claves.{
  tiene_key, is_key_taken, is_key_blocked, owns_key, esi_has_key,
}

module _ (commons : Commons) where
  open commons use {equals_ignore_case, equals_symm, equals_trans, equals_refl}

  -- No two entries hold one key.
  abbrev pub Distintas : List ClavePorEsi → Type 0
  Distintas [] = Unit
  Distintas (c ∷ cs) = (any_satisfy (is_key_taken commons c.key) cs ≡ false) × Distintas cs

  -- The key is in lista_bloqueados.
  abbrev pub EsRegistrada : List ClaveBloqueada → ClavePorEsi → Type 0
  EsRegistrada lista c = any_satisfy (tiene_key commons c.key) lista ≡ true

  equals-false : (s t : Text) → equals_ignore_case s t ≡ false → equals_ignore_case t s ≡ false
  equals-false s t h = elim (Bool-cases (equals_ignore_case t s)) [
    | inl y ↦ absurd (cc (equals_symm t s y))
    | inr n ↦ n
  ]

  pub Distintas-append :
      (cs : List ClavePorEsi) (c : ClavePorEsi)
      → Distintas cs
      → any_satisfy (is_key_taken commons c.key) cs ≡ false
      → Distintas (cs ++ c ∷ [])
  unfolding is_key_taken
  Distintas-append [] c h k = (refl, tt)
  Distintas-append (x ∷ cs) c h k = (
    any-append (is_key_taken commons x.key) cs (c ∷ [])
        ∙ ground (arith, equals-false x.key c.key, h.0),
    Distintas-append cs c h.1 (ground arith),
  )

  pub Distintas-remove_first :
      (p : ClavePorEsi → Bool) (cs : List ClavePorEsi)
      → Distintas cs
      → Distintas (remove_first p cs)
  Distintas-remove_first p [] h = tt
  Distintas-remove_first p (c ∷ cs) h = elim (Bool-cases (p c)) [
    | inl y ↦ rw y h.1
    | inr n ↦
        rw n
          (any-remove_first p (is_key_taken commons c.key) cs h.0, Distintas-remove_first p cs h.1)
  ]

  pub registro_trans :
      (lista : List ClaveBloqueada) (key' key : Text)
      → equals_ignore_case key' key ≡ true
      → any_satisfy (tiene_key commons key') lista ≡ true
      → any_satisfy (tiene_key commons key) lista ≡ true
  unfolding tiene_key
  registro_trans [] key' key e h = cc
  registro_trans (b ∷ lista) key' key e h = elim (Bool-cases (equals_ignore_case b.key key')) [
    | inl y ↦ rw (equals_trans b.key key' key y e)
    | inr n ↦ ground (arith, registro_trans lista key' key e (rw n at h))
  ]

  -- A key that is not registered is not held.
  pub libre_sin_registro :
      (lista : List ClaveBloqueada) (claves : List ClavePorEsi) (key : Text)
      → All (EsRegistrada lista) claves
      → any_satisfy (tiene_key commons key) lista ≡ false
      → is_key_blocked commons claves key ≡ false
  unfolding is_key_blocked is_key_taken
  libre_sin_registro lista [] key h k = refl
  libre_sin_registro lista (c ∷ claves) key h k = elim (Bool-cases (equals_ignore_case c.key key)) [
    | inl y ↦ absurd (cc (registro_trans lista c.key key y h.0))
    | inr n ↦ rw n (libre_sin_registro lista claves key h.1 k)
  ]

  pub owns_new :
      (claves : List ClavePorEsi) (name key : Text)
      → esi_has_key commons (claves ++ (record { esi_id = name; key = key }) ∷ []) name key ≡ true
  unfolding esi_has_key owns_key
  owns_new [] name key = rw (equals_refl name, equals_refl key)
  owns_new (c ∷ claves) name key = ground (arith, owns_new claves name key)
