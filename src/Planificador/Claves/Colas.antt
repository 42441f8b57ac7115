-- ===== src/Planificador/Claves/Colas.antt =====
-- Who waits for a key, and what a key that is taken or waited for does to the lists.
use tp_re_distinto_so.Base.{
  any-none, any-some, any-append, any-update_first, All-update_first, find-update_first,
  All-find_first, ℕ, ◌<◌, ◌≡◌, refl, sym, ◌∙◌, ap, subst, Bool, true, false, ◌&&◌, not, List, [],
  ◌∷◌, ◌++◌, none, some, Text, Commons, done, fault, any_satisfy, All, All-append, arith,
}
use tp_re_distinto_so.Planificador.Estado.{ClaveBloqueada, ClavePorEsi, Estado, send_header}
use tp_re_distinto_so.Planificador.Claves.{
  tiene_key, find_by_key, is_key_blocked, encolar, bloquear, is_empty,
}
use tp_re_distinto_so.Planificador.Claves.Listas.{
  EsRegistrada, Distintas-append, libre_sin_registro,
}
use tp_re_distinto_so.Planificador.Claves.Validez.{Llaves, EsPuntero, EsCola}

module _ (commons : Commons) where
  -- The ESIs that wait for a key.
  unfoldable pub cola_de : List ClaveBloqueada → Text → List ℕ
  cola_de lista key = elim (find_by_key commons lista key) [
    | none ↦ []
    | some k ↦ k.cola_esis_bloqueados
  ]

  -- Nobody holds the key and nobody waits for it.
  unfoldable pub es_libre : List ClaveBloqueada → List ClavePorEsi → Text → Bool
  unfolding cola_de
  es_libre lista claves key =
      is_empty (cola_de lista key) && not (is_key_blocked commons claves key)

  pub es_libre-some :
      (lista : List ClaveBloqueada) (claves : List ClavePorEsi) (key : Text) (k : ClaveBloqueada)
      → find_by_key commons lista key ≡ some k
      → es_libre lista claves key
        ≡ is_empty k.cola_esis_bloqueados && not (is_key_blocked commons claves key)
  unfolding es_libre cola_de
  es_libre-some lista claves key k e = rw (e, cola_de)

  pub cola_de-some :
      (lista : List ClaveBloqueada) (key : Text) (k : ClaveBloqueada)
      → find_by_key commons lista key ≡ some k
      → cola_de lista key ≡ k.cola_esis_bloqueados
  unfolding cola_de
  cola_de-some lista key k e = rw (e, cola_de)

  pub es_libre-none :
      (lista : List ClaveBloqueada) (claves : List ClavePorEsi) (key : Text)
      → Llaves commons lista claves
      → find_by_key commons lista key ≡ none
      → (is_key_blocked commons claves key ≡ false) × (es_libre lista claves key ≡ true)
  unfolding es_libre cola_de is_empty find_by_key
  es_libre-none lista claves key l e =
      let libre =
        libre_sin_registro commons lista claves key l.registradas
          (any-none (tiene_key commons key) lista e) in
      (libre, rw (e, cola_de, libre))

  pub EsRegistrada-append :
      (lista : List ClaveBloqueada) (k : ClaveBloqueada) (claves : List ClavePorEsi)
      → All (EsRegistrada commons lista) claves
      → All (EsRegistrada commons (lista ++ k ∷ [])) claves
  EsRegistrada-append lista k [] h = tt
  EsRegistrada-append lista k (c ∷ claves) h = (
    any-append (tiene_key commons c.key) lista (k ∷ []) ∙ ground (arith, h.0),
    EsRegistrada-append lista k claves h.1,
  )

  pub EsRegistrada-encolar :
      (lista : List ClaveBloqueada) (key : Text) (p : ℕ) (claves : List ClavePorEsi)
      → All (EsRegistrada commons lista) claves
      → All (EsRegistrada commons (encolar commons key p lista)) claves
  unfolding encolar tiene_key
  EsRegistrada-encolar lista key p [] h = tt
  EsRegistrada-encolar lista key p (c ∷ claves) h = (
    any-update_first (tiene_key commons c.key) (tiene_key commons key) _ lista (λ a. refl) ∙ h.0,
    EsRegistrada-encolar lista key p claves h.1,
  )

  -- The key that the running ESI takes was not held before.
  pub Llaves-reservar :
      (lista : List ClaveBloqueada) (claves : List ClavePorEsi) (name key : Text)
      → Llaves commons lista claves
      → is_key_blocked commons claves key ≡ false
      → any_satisfy (tiene_key commons key) lista ≡ true
      → Llaves commons lista (claves ++ (record { esi_id = name; key = key }) ∷ [])
  unfolding is_key_blocked
  Llaves-reservar lista claves name key l libre r = record {
    exclusivas =
        Distintas-append commons claves (record { esi_id = name; key = key }) l.exclusivas libre;
    registradas = All-append (EsRegistrada commons lista) claves _ l.registradas (r, tt);
  }

  pub registrada_nueva :
      (lista : List ClaveBloqueada) (key : Text)
      → any_satisfy
          (tiene_key commons key)
          (lista ++ (record { cola_esis_bloqueados = []; key = key }) ∷ [])
        ≡ true
  unfolding tiene_key
  registrada_nueva lista key =
      any-append (tiene_key commons key) lista _ ∙ ground (arith, commons.equals_refl key)

  pub registrada_vieja :
      (lista : List ClaveBloqueada) (key : Text) (k : ClaveBloqueada)
      → find_by_key commons lista key ≡ some k
      → any_satisfy (tiene_key commons key) lista ≡ true
  unfolding find_by_key
  registrada_vieja lista key k e = any-some (tiene_key commons key) lista k e

  pub cola_encolada :
      (lista : List ClaveBloqueada) (key : Text) (k : ClaveBloqueada) (p : ℕ)
      → find_by_key commons lista key ≡ some k
      → cola_de (encolar commons key p lista) key ≡ cola_de lista key ++ p ∷ []
  unfolding find_by_key encolar tiene_key
  cola_encolada lista key k p e =
      cola_de-some (encolar commons key p lista) key _
        (find-update_first (tiene_key commons key) _ lista k (λ b. refl) e)
      ∙ ap (λ xs. xs ++ p ∷ []) (sym (cola_de-some lista key k e))

  pub cola_valida :
      (n : ℕ) (lista : List ClaveBloqueada) (key : Text) (k : ClaveBloqueada)
      → All (EsCola n) lista
      → find_by_key commons lista key ≡ some k
      → EsCola n k
  unfolding find_by_key
  cola_valida n lista key k h e = All-find_first (EsCola n) (tiene_key commons key) lista k h e

  pub EsCola-encolar :
      (n : ℕ) (lista : List ClaveBloqueada) (key : Text) (p : ℕ)
      → p < n
      → All (EsCola n) lista
      → All (EsCola n) (encolar commons key p lista)
  unfolding encolar
  EsCola-encolar n lista key p h all =
      All-update_first (EsCola n) (tiene_key commons key) _ lista
        (λ k hk. All-append (EsPuntero n) k.cola_esis_bloqueados (p ∷ []) hk (h, tt)) all

  pub bloquear-some :
      {F : Type 0} (key : Text) (s : Estado F) (p : ℕ)
      → s.un_esi ≡ some p
      → bloquear commons key s
        ≡ done (record (send_header s s.socket_c 32) {
          lista_bloqueados = encolar commons key p s.lista_bloqueados;
          block = true;
        })
  unfolding bloquear send_header
  bloquear-some key s p e =
      subst
        (λ o.
          elim o [
            | none ↦ fault
            | some q ↦ done (record (send_header s s.socket_c 32) {
              lista_bloqueados = encolar commons key q s.lista_bloqueados;
              block = true;
            })
          ]
          ≡ done (record (send_header s s.socket_c 32) {
            lista_bloqueados = encolar commons key p s.lista_bloqueados;
            block = true;
          }))
        (sym e) refl
