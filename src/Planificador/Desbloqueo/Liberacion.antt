-- ===== src/Planificador/Desbloqueo/Liberacion.antt =====
-- unlock_esi: what it does to the state is right on every branch that a registered key can take.
use tp_re_distinto_so.Base.{
  any-update_first, All-update_first, All-remove_first, find_of_any, ℕ, ◌≤◌, ◌<◌, ◌≡◌, refl, sym,
  ◌∙◌, ap, subst, Bool, true, List, [], ◌∷◌, none, some, Text, Commons, Outcome, done, fault, ◌>>=◌,
  remove_first, length, All, arith, any_satisfy, count, ◌+◌, Bool-cases, inl, inr,
}
use tp_re_distinto_so.Planificador.Estado.{Floats, ClaveBloqueada, ClavePorEsi, Estado}
use tp_re_distinto_so.Planificador.Estimacion.{calculate_estimation}
use tp_re_distinto_so.Planificador.Claves.{tiene_key, find_by_key}
use tp_re_distinto_so.Planificador.Claves.Listas.{EsRegistrada, Distintas-remove_first}
use tp_re_distinto_so.Planificador.Claves.Validez.{EsPuntero, EsCola}
use tp_re_distinto_so.Planificador.Claves.Colas.{cola_valida}
use tp_re_distinto_so.Planificador.Desbloqueo.{desencolar, liberar_por, unlock_esi}
use tp_re_distinto_so.Planificador.Desbloqueo.Vuelta.{en_colas, esis_en, Nucleo, liberar-Vuelve}

module _ (commons : Commons) where
  Registradas-desencolar :
      (lista : List ClaveBloqueada) (key : Text) (claves : List ClavePorEsi)
      → All (EsRegistrada commons lista) claves
      → All (EsRegistrada commons (desencolar commons key lista)) claves
  unfolding desencolar tiene_key
  Registradas-desencolar lista key [] h = tt
  Registradas-desencolar lista key (c ∷ claves) h = (
    any-update_first (tiene_key commons c.key) (tiene_key commons key) _ lista (λ a. refl) ∙ h.0,
    Registradas-desencolar lista key claves h.1,
  )

  sin_frente :
      (n : ℕ) (k : ClaveBloqueada)
      → EsCola n k
      → All (EsPuntero n) (elim k.cola_esis_bloqueados [ [] ↦ [] | p ∷ ps ↦ ps ])
  sin_frente n k h = resto k.cola_esis_bloqueados h
    where
      resto :
          (cola : List ℕ)
          → All (EsPuntero n) cola
          → All (EsPuntero n) (elim cola [ [] ↦ [] | p ∷ ps ↦ ps ])
      resto [] h' = tt
      resto (p ∷ ps) h' = h'.1

  EsCola-desencolar :
      (n : ℕ) (lista : List ClaveBloqueada) (key : Text)
      → All (EsCola n) lista
      → All (EsCola n) (desencolar commons key lista)
  unfolding desencolar
  EsCola-desencolar n lista key h =
      All-update_first (EsCola n) (tiene_key commons key) _ lista (λ k hk. sin_frente n k hk) h

  -- The front of the queue of the key is taken out, and no other.
  pub en_colas-desencolar :
      (q p : ℕ) (ps : List ℕ) (lista : List ClaveBloqueada) (key : Text) (k : ClaveBloqueada)
      → find_by_key commons lista key ≡ some k
      → k.cola_esis_bloqueados ≡ p ∷ ps
      → en_colas q lista ≡ count q (p ∷ []) + en_colas q (desencolar commons key lista)
  unfolding desencolar find_by_key
  en_colas-desencolar q p ps [] key k e c = cc
  en_colas-desencolar q p ps (b ∷ lista) key k e c = elim (Bool-cases (tiene_key commons key b)) [
    | inl y ↦
        let e' : some b ≡ some k = rw y at e in
        let igual : b ≡ k = cc in
        let i : b.cola_esis_bloqueados ≡ p ∷ ps =
          ap (λ (x : ClaveBloqueada). x.cola_esis_bloqueados) igual ∙ c in
        rw (y, i) (ground arith)
    | inr n ↦ rw n (omega (arith, en_colas-desencolar q p ps lista key k (rw n at e) c))
  ]

  pub registrada :
      (lista : List ClaveBloqueada) (key : Text)
      → any_satisfy (tiene_key commons key) lista ≡ true
      → (k : ClaveBloqueada) × (find_by_key commons lista key ≡ some k)
  unfolding find_by_key
  registrada lista key h = find_of_any (tiene_key commons key) lista h

  module _ {F : Type 0} where
    pub desencolar-Nucleo :
        (s : Estado F) (key : Text)
        → Nucleo commons s
        → Nucleo commons (record s { lista_bloqueados = desencolar commons key s.lista_bloqueados })
    desencolar-Nucleo s key w = record {
      llaves = record {
        exclusivas = w.llaves.exclusivas;
        registradas =
            Registradas-desencolar s.lista_bloqueados key s.claves_bloqueadas_por_esis
              w.llaves.registradas;
      };
      punteros = record {
        actual = w.punteros.actual;
        es_actual = w.punteros.es_actual;
        actual_en = w.punteros.actual_en;
        ready_en = w.punteros.ready_en;
        colas_en = EsCola-desencolar (length s.esis) s.lista_bloqueados key w.punteros.colas_en;
      };
      nadie = w.nadie;
    }

    pub quitar-Nucleo :
        (s : Estado F) (p : ClavePorEsi → Bool)
        → Nucleo commons s
        → Nucleo commons
            (record s { claves_bloqueadas_por_esis = remove_first p s.claves_bloqueadas_por_esis })
    quitar-Nucleo s p w = record {
      llaves = record {
        exclusivas =
            Distintas-remove_first commons p s.claves_bloqueadas_por_esis w.llaves.exclusivas;
        registradas =
            All-remove_first (EsRegistrada commons s.lista_bloqueados) p
              s.claves_bloqueadas_por_esis w.llaves.registradas;
      };
      punteros = w.punteros;
      nadie = w.nadie;
    }

    -- `m` ends in a state with the given keys held, the same semaphore and messages, and no ready ESI
    -- less; each ESI runs, is ready or waits for a key as often as before.
    pub record Sigue (claves : List ClavePorEsi) (s : Estado F) (m : Outcome (Estado F))
        : Type 0 where
      pub estado : Estado F
      pub resultado : m ≡ done estado
      pub nucleo : Nucleo commons estado
      pub quedan : (q : ℕ) → count q s.lista_ready ≤ count q estado.lista_ready
      pub conserva : (q : ℕ) → esis_en q estado ≡ esis_en q s
      pub enviados : estado.enviados ≡ s.enviados
      pub hay : estado.hay_esis ≡ s.hay_esis
      pub claves_eq : estado.claves_bloqueadas_por_esis ≡ claves

    module _ (fl : Floats F) where
      al_frente : ℕ → Text → Estado F → Outcome (Estado F)
      al_frente p key s = do
        s' ←
            calculate_estimation fl p
              (record s { lista_bloqueados = desencolar commons key s.lista_bloqueados })
        liberar_por fl s'.algorithm p s'

      por_cola : Text → Estado F → List ℕ → Outcome (Estado F)
      por_cola key s cola = elim cola [ [] ↦ done s | p ∷ ps ↦ al_frente p key s ]

      unlock_esi-cola :
          (key : Text) (s : Estado F) (k : ClaveBloqueada) (cola : List ℕ)
          → find_by_key commons s.lista_bloqueados key ≡ some k
          → k.cola_esis_bloqueados ≡ cola
          → unlock_esi fl commons key s ≡ por_cola key s cola
      unfolding unlock_esi al_frente por_cola
      unlock_esi-cola key s k cola e c =
          subst
            (λ o.
              elim o [ none ↦ fault | some a_key ↦ por_cola key s a_key.cola_esis_bloqueados ]
              ≡ por_cola key s cola)
            (sym e) (ap (por_cola key s) c)

      pub sin_cambio :
          (s : Estado F) → Nucleo commons s → Sigue s.claves_bloqueadas_por_esis s (done s)
      sin_cambio s w = record {
        estado = s;
        resultado = refl;
        nucleo = w;
        quedan = λ q. omega arith;
        conserva = λ q. refl;
        enviados = refl;
        hay = refl;
        claves_eq = refl;
      }

      al_frente-Sigue :
          (p : ℕ) (ps : List ℕ) (key : Text) (s : Estado F) (k : ClaveBloqueada)
          → find_by_key commons s.lista_bloqueados key ≡ some k
          → k.cola_esis_bloqueados ≡ p ∷ ps
          → p < length s.esis
          → Nucleo commons s
          → Sigue s.claves_bloqueadas_por_esis s (al_frente p key s)
      unfolding al_frente
      al_frente-Sigue p ps key s k e c h w =
          let s' : Estado F = record s {
            lista_bloqueados = desencolar commons key s.lista_bloqueados;
          } in
          let r = liberar-Vuelve commons fl p s' h (desencolar-Nucleo s key w) in
          record {
            estado = r.estado;
            resultado = r.resultado;
            nucleo = r.nucleo;
            quedan = r.quedan;
            conserva = λ q.
                omega
                  (arith, r.conserva q, en_colas-desencolar q p ps s.lista_bloqueados key k e c);
            enviados = r.enviados;
            hay = r.hay;
            claves_eq = r.claves;
          }

      pub Sigue-igual :
          (claves : List ClavePorEsi) (s : Estado F) (m m' : Outcome (Estado F))
          → m ≡ m'
          → Sigue claves s m'
          → Sigue claves s m
      Sigue-igual claves s m m' e r = subst (Sigue claves s) (sym e) r

      -- The ESI at the front of the queue of a registered key, if there is one, is put among the ready
      -- ones: no ESI is lost, the keys that are held stay, hay_esis does not change.
      pub unlock_esi-Sigue :
          (key : Text) (s : Estado F)
          → Nucleo commons s
          → any_satisfy (tiene_key commons key) s.lista_bloqueados ≡ true
          → Sigue s.claves_bloqueadas_por_esis s (unlock_esi fl commons key s)
      unfolding por_cola
      unlock_esi-Sigue key s w h =
          let (k, e) = registrada s.lista_bloqueados key h in frente k.cola_esis_bloqueados k e refl
        where
          frente :
              (cola : List ℕ) (k : ClaveBloqueada)
              → find_by_key commons s.lista_bloqueados key ≡ some k
              → k.cola_esis_bloqueados ≡ cola
              → Sigue s.claves_bloqueadas_por_esis s (unlock_esi fl commons key s)
          frente [] k e c = Sigue-igual _ s _ _ (unlock_esi-cola key s k [] e c) (sin_cambio s w)
          frente (p ∷ ps) k e c =
              let dentro : All (EsPuntero (length s.esis)) (p ∷ ps) =
                subst (All (EsPuntero (length s.esis))) c (
                  cola_valida commons (length s.esis) s.lista_bloqueados key k w.punteros.colas_en
                    e) in
              Sigue-igual _ s _ _ (unlock_esi-cola key s k (p ∷ ps) e c)
                (al_frente-Sigue p ps key s k e c dentro.0 w)
