-- ===== src/Planificador/Claves/Soltar.antt =====
-- release_key: in a list without two holders of one key it leaves just the entries of the other keys.
use tp_re_distinto_so.Base.{
  ◌≡◌, refl, ap, true, false, not, List, [], ◌∷◌, Text, Commons, any_satisfy, keep, All, arith, inl,
  inr, Bool-cases,
}
use tp_re_distinto_so.Planificador.Estado.{ClaveBloqueada, ClavePorEsi}
use tp_re_distinto_so.Planificador.Claves.{
  tiene_key, is_key_taken, is_key_blocked, owns_key, esi_has_key, release_key,
}
use tp_re_distinto_so.Planificador.Claves.Listas.{Distintas, EsRegistrada, libre_sin_registro}

module _ (commons : Commons) where
  open commons use {equals_ignore_case, equals_symm, equals_trans}

  tiene_bloqueada :
      (claves : List ClavePorEsi) (name key : Text)
      → esi_has_key commons claves name key ≡ true
      → is_key_blocked commons claves key ≡ true
  unfolding esi_has_key owns_key is_key_blocked is_key_taken
  tiene_bloqueada [] name key h = cc
  tiene_bloqueada (c ∷ claves) name key h = ground (arith, tiene_bloqueada claves name key)

  -- A key that an ESI holds is in lista_bloqueados.
  pub tiene_registrada :
      (lista : List ClaveBloqueada) (claves : List ClavePorEsi) (name key : Text)
      → All (EsRegistrada commons lista) claves
      → esi_has_key commons claves name key ≡ true
      → any_satisfy (tiene_key commons key) lista ≡ true
  tiene_registrada lista claves name key r h =
      elim (Bool-cases (any_satisfy (tiene_key commons key) lista)) [
        | inl y ↦ y
        | inr n ↦ absurd (
            cc (libre_sin_registro commons lista claves key r n, tiene_bloqueada claves name key h))
      ]

  -- The entries of the other keys.
  abbrev pub sin_clave : Text → List ClavePorEsi → List ClavePorEsi
  sin_clave key claves = keep (λ c. not (equals_ignore_case c.key key)) claves

  sin_clave-libre :
      (claves : List ClavePorEsi) (key : Text)
      → is_key_blocked commons claves key ≡ false
      → sin_clave key claves ≡ claves
  unfolding is_key_blocked is_key_taken
  sin_clave-libre [] key h = refl
  sin_clave-libre (c ∷ claves) key h = elim (Bool-cases (equals_ignore_case c.key key)) [
    | inl y ↦ absurd (let f : true ≡ false = rw y at h in cc)
    | inr n ↦ rw n (ap (◌∷◌ c) (sin_clave-libre claves key (rw n at h)))
  ]

  libre-igual :
      (claves : List ClavePorEsi) (key' key : Text)
      → equals_ignore_case key' key ≡ true
      → any_satisfy (is_key_taken commons key') claves ≡ false
      → is_key_blocked commons claves key ≡ false
  unfolding is_key_blocked is_key_taken
  libre-igual [] key' key e h = refl
  libre-igual (c ∷ claves) key' key e h = elim (Bool-cases (equals_ignore_case c.key key)) [
    | inl y ↦ absurd (
        let t = equals_trans c.key key key' y (equals_symm key' key e) in
        let f : true ≡ false = rw t at h in cc)
    | inr n ↦ rw n (libre-igual claves key' key e (ground (arith, h)))
  ]

  duena :
      (c : ClavePorEsi) (name key : Text)
      → owns_key commons name key c ≡ true
      → equals_ignore_case c.key key ≡ true
  unfolding owns_key
  duena c name key h = ground (arith, h)

  pub release_key-sin_clave :
      (claves : List ClavePorEsi) (name key : Text)
      → Distintas commons claves
      → esi_has_key commons claves name key ≡ true
      → release_key commons claves name key ≡ sin_clave key claves
  unfolding esi_has_key release_key
  release_key-sin_clave [] name key d h = cc
  release_key-sin_clave (c ∷ claves) name key d h =
      elim (Bool-cases (owns_key commons name key c)) [
        | inl y ↦
            let e = duena c name key y in
            rw (y, e, sin_clave-libre claves key (libre-igual claves c.key key e d.0))
        | inr n ↦
            let h' : esi_has_key commons claves name key ≡ true = rw n at h in
            elim (Bool-cases (equals_ignore_case c.key key)) [
              | inl e ↦
                  absurd
                    (cc (libre-igual claves c.key key e d.0, tiene_bloqueada claves name key h'))
              | inr k ↦ rw (n, k) (ap (◌∷◌ c) (release_key-sin_clave claves name key d.1 h'))
            ]
      ]
