-- ===== src/Planificador/Desbloqueo/Suelta.antt =====
-- unlock_key: an ESI gives a key back with STORE.
use tp_re_distinto_so.Base.{
  ◌&&◌, leb, Sorting, All-list_sort, find-update_first, ℕ, ◌+◌, ◌<◌, ◌≡◌, refl, sym, ◌∙◌, ap, subst,
  Bool, true, false, List, [], ◌∷◌, ◌++◌, none, some, Text, Commons, Outcome, done, fault, ◌>>=◌,
  if◌then◌else◌, length, All, arith, Bool-cases, inl, inr, any_satisfy,
}
use tp_re_distinto_so.Planificador.Estado.{
  Floats, Esi, ClaveBloqueada, Estado, load_un_esi, send_header,
}
use tp_re_distinto_so.Planificador.Estimacion.{
  sigue_malo, sort_list_by_algorithm, best_by_algorithm,
}
use tp_re_distinto_so.Planificador.Claves.{
  tiene_key, find_by_key, owns_key, esi_has_key, release_key,
}
use tp_re_distinto_so.Planificador.Claves.Soltar.{
  tiene_registrada, sin_clave, release_key-sin_clave,
}
use tp_re_distinto_so.Planificador.Claves.Validez.{EsPuntero, IsValid}
use tp_re_distinto_so.Planificador.Claves.Colas.{cola_valida, cola_de, cola_de-some}
use tp_re_distinto_so.Planificador.Desbloqueo.{desencolar, reincorporar, despertar, unlock_key}
use tp_re_distinto_so.Planificador.Desbloqueo.Vuelta.{
  en_colas, esis_en, activo-igual, Nucleo, reincorporar-Vuelve,
}
use tp_re_distinto_so.Planificador.Desbloqueo.Liberacion.{
  registrada, en_colas-desencolar, desencolar-Nucleo, quitar-Nucleo,
}

module _ (commons : Commons) where
  -- Who waits behind the front of a queue, and how many a release wakes.
  abbrev pub tras_frente : List ℕ → List ℕ
  tras_frente [] = []
  tras_frente (p ∷ ps) = ps

  abbrev pub despiertos : List ℕ → ℕ
  despiertos [] = 0
  despiertos (p ∷ ps) = 1

  cola_de-desencolar :
      (lista : List ClaveBloqueada) (key : Text) (k : ClaveBloqueada)
      → find_by_key commons lista key ≡ some k
      → cola_de commons (desencolar commons key lista) key ≡ tras_frente k.cola_esis_bloqueados
  unfolding find_by_key desencolar tiene_key
  cola_de-desencolar lista key k e =
      cola_de-some commons (desencolar commons key lista) key _
        (find-update_first (tiene_key commons key) _ lista k (λ b. refl) e)
      ∙ detras k.cola_esis_bloqueados
    where
      detras : (c : List ℕ) → elim c [ [] ↦ [] | p ∷ ps ↦ ps ] ≡ tras_frente c
      detras [] = refl
      detras (p ∷ ps) = refl

  module _ {F : Type 0} where
    IsValid-Nucleo : (s : Estado F) → IsValid commons s → Nucleo commons s
    IsValid-Nucleo s v = record { llaves = v.llaves; punteros = v.punteros; nadie = v.nadie }

    -- `m` ends in a valid state with the keys and messages of `s`, where the front of the queue of the
    -- key, if there is one, no longer waits, and each ESI runs, is ready or waits as often as before.
    record Despierta (key : Text) (s : Estado F) (m : Outcome (Estado F)) : Type 0 where
      estado : Estado F
      resultado : m ≡ done estado
      valida : IsValid commons estado
      cola_eq :
          cola_de commons estado.lista_bloqueados key
          ≡ tras_frente (cola_de commons s.lista_bloqueados key)
      hay : estado.hay_esis ≡ s.hay_esis + despiertos (cola_de commons s.lista_bloqueados key)
      conserva : (q : ℕ) → esis_en q estado ≡ esis_en q s
      claves_eq : estado.claves_bloqueadas_por_esis ≡ s.claves_bloqueadas_por_esis
      enviados_eq : estado.enviados ≡ s.enviados

    -- `m` ends in a valid state. If `tiene`, the entries of the key are gone and all others stay, the
    -- front of its queue leaves the queue with one post of hay_esis, and 34 is sent; else keys, queue and
    -- semaphore stay and 35 is sent. Each ESI runs, is ready or waits for a key as often as before.
    pub record Valida (tiene : Bool) (key : Text) (s : Estado F) (m : Outcome (Estado F))
        : Type 0 where
      pub estado : Estado F
      pub resultado : m ≡ done estado
      pub valida : IsValid commons estado
      pub claves_eq : estado.claves_bloqueadas_por_esis ≡ (
          if tiene
          then sin_clave commons key s.claves_bloqueadas_por_esis
          else s.claves_bloqueadas_por_esis)
      pub cola_eq : cola_de commons estado.lista_bloqueados key ≡ (
          if tiene
          then tras_frente (cola_de commons s.lista_bloqueados key)
          else cola_de commons s.lista_bloqueados key)
      pub hay : estado.hay_esis ≡ (
          if tiene
          then s.hay_esis + despiertos (cola_de commons s.lista_bloqueados key)
          else s.hay_esis)
      pub conserva : (q : ℕ) → esis_en q estado ≡ esis_en q s
      pub enviados_eq :
          estado.enviados
          ≡ s.enviados ++ (record { socket = s.socket_c; id = if tiene then 34 else 35 }) ∷ []

    module _ (fl : Floats F) (sorting : Sorting) where
      ordenada : Estado F → Estado F
      ordenada s = record s {
        lista_ready = sorting.list_sort (best_by_algorithm fl s) s.lista_ready;
      }

      sin_malos :
          (n : ℕ) (ready : List ℕ)
          → All (EsPuntero n) ready
          → any_satisfy (λ p. leb n p) ready ≡ false
      sin_malos n [] h = refl
      sin_malos n (p ∷ ready) h = ground (arith, h.0, sin_malos n ready h.1)

      sort_list_by_algorithm-ordenada :
          (s : Estado F)
          → Nucleo commons s
          → sort_list_by_algorithm fl sorting s ≡ done (ordenada s)
      unfolding sort_list_by_algorithm sigue_malo ordenada
      sort_list_by_algorithm-ordenada s w =
          let e : sigue_malo fl s ≡ false =
            rw (sin_malos (length s.esis) s.lista_ready w.punteros.ready_en)
              (falso (leb 2 (length s.lista_ready))) in
          rw e refl
        where
          falso : (b : Bool) → (b && false) ≡ false
          falso true = refl
          falso false = refl

      ordenada-Nucleo : (s : Estado F) → Nucleo commons s → Nucleo commons (ordenada s)
      unfolding ordenada
      ordenada-Nucleo s w = record {
        llaves = w.llaves;
        punteros = record {
          actual = w.punteros.actual;
          es_actual = w.punteros.es_actual;
          actual_en = w.punteros.actual_en;
          ready_en =
              All-list_sort (EsPuntero (length s.esis)) sorting (best_by_algorithm fl s)
                s.lista_ready w.punteros.ready_en;
          colas_en = w.punteros.colas_en;
        };
        nadie = w.nadie;
      }

      -- The order of the ready ESIs does not matter.
      sorted_en : (q : ℕ) (s : Estado F) → esis_en q (ordenada s) ≡ esis_en q s
      unfolding ordenada
      sorted_en q s =
          ap (λ n. n + en_colas q s.lista_bloqueados)
            (activo-igual q s.un_esi _ s.lista_ready
              (sorting.count-list_sort (best_by_algorithm fl s) s.lista_ready q))

      al_frente : ℕ → Text → Estado F → Outcome (Estado F)
      al_frente p key s = do
        s' ←
            reincorporar fl p
              (record s { lista_bloqueados = desencolar commons key s.lista_bloqueados })
        t ← sort_list_by_algorithm fl sorting s'
        done (record t { hay_esis = t.hay_esis + 1 })

      por_cola : Text → Estado F → List ℕ → Outcome (Estado F)
      por_cola key s cola = elim cola [ [] ↦ done s | p ∷ ps ↦ al_frente p key s ]

      despertar-cola :
          (key : Text) (s : Estado F) (k : ClaveBloqueada) (cola : List ℕ)
          → find_by_key commons s.lista_bloqueados key ≡ some k
          → k.cola_esis_bloqueados ≡ cola
          → despertar fl commons sorting key s ≡ por_cola key s cola
      unfolding despertar al_frente por_cola
      despertar-cola key s k cola e c =
          subst
            (λ o.
              elim o [ none ↦ fault | some a_key ↦ por_cola key s a_key.cola_esis_bloqueados ]
              ≡ por_cola key s cola)
            (sym e) (ap (por_cola key s) c)

      al_frente-Valida :
          (p : ℕ) (ps : List ℕ) (key : Text) (s : Estado F) (k : ClaveBloqueada)
          → find_by_key commons s.lista_bloqueados key ≡ some k
          → k.cola_esis_bloqueados ≡ p ∷ ps
          → p < length s.esis
          → IsValid commons s
          → Despierta key s (al_frente p key s)
      unfolding al_frente ordenada
      al_frente-Valida p ps key s k e c h v =
          let s' : Estado F = record s {
            lista_bloqueados = desencolar commons key s.lista_bloqueados;
          } in
          let r =
            reincorporar-Vuelve commons fl p s' h
              (desencolar-Nucleo commons s key (IsValid-Nucleo s v)) in
          let w = ordenada-Nucleo r.estado r.nucleo in
          let antes = cola_de-some commons s.lista_bloqueados key k e ∙ c in
          record {
            estado = record (ordenada r.estado) { hay_esis = r.estado.hay_esis + 1 };
            resultado = rw (r.resultado, sort_list_by_algorithm-ordenada r.estado r.nucleo);
            valida = record {
              llaves = w.llaves;
              punteros = w.punteros;
              hay_le = omega (
                arith,
                v.hay_le,
                r.hay,
                r.ready,
                sorting.length-list_sort (best_by_algorithm fl r.estado) r.estado.lista_ready,
              );
              nadie = w.nadie;
            };
            cola_eq =
                ap (λ l. cola_de commons l key) r.lista
                ∙ cola_de-desencolar s.lista_bloqueados key k e
                ∙ ap tras_frente (c ∙ sym antes);
            hay = omega (arith, r.hay, ap despiertos antes);
            conserva = λ q.
                sorted_en q r.estado
                ∙ omega (
                  arith,
                  r.conserva q,
                  en_colas-desencolar commons q p ps s.lista_bloqueados key k e c,
                );
            claves_eq = r.claves;
            enviados_eq = r.enviados;
          }

      despertar-Valida :
          (key : Text) (s : Estado F)
          → any_satisfy (tiene_key commons key) s.lista_bloqueados ≡ true
          → IsValid commons s
          → Despierta key s (despertar fl commons sorting key s)
      unfolding por_cola
      despertar-Valida key s h v =
          let (k, e) = registrada commons s.lista_bloqueados key h in
          segun k.cola_esis_bloqueados k e refl
        where
          segun :
              (cola : List ℕ) (k : ClaveBloqueada)
              → find_by_key commons s.lista_bloqueados key ≡ some k
              → k.cola_esis_bloqueados ≡ cola
              → Despierta key s (despertar fl commons sorting key s)
          segun [] k e c = record {
            estado = s;
            resultado = despertar-cola key s k [] e c;
            valida = v;
            cola_eq =
                let a = cola_de-some commons s.lista_bloqueados key k e ∙ c in
                a ∙ ap tras_frente (sym a);
            hay =
                omega (arith, ap despiertos (cola_de-some commons s.lista_bloqueados key k e ∙ c));
            conserva = λ q. refl;
            claves_eq = refl;
            enviados_eq = refl;
          }
          segun (p ∷ ps) k e c =
              let dentro : All (EsPuntero (length s.esis)) (p ∷ ps) =
                subst (All (EsPuntero (length s.esis))) c (
                  cola_valida commons (length s.esis) s.lista_bloqueados key k v.punteros.colas_en
                    e) in
              subst (Despierta key s) (sym (despertar-cola key s k (p ∷ ps) e c))
                (al_frente-Valida p ps key s k e c dentro.0 v)

      soltada : Text → Text → Estado F → Estado F
      soltada name key s = record s {
        claves_bloqueadas_por_esis = release_key commons s.claves_bloqueadas_por_esis name key;
      }

      soltada-IsValid :
          (name key : Text) (s : Estado F)
          → IsValid commons s
          → IsValid commons (send_header (soltada name key s) s.socket_c 34)
      unfolding soltada release_key send_header
      soltada-IsValid name key s v =
          let w = quitar-Nucleo commons s (owns_key commons name key) (IsValid-Nucleo s v) in
          record { llaves = w.llaves; punteros = w.punteros; hay_le = v.hay_le; nadie = w.nadie }

      unlock_key-has :
          (key : Text) (s : Estado F) (e : Esi F) (b : Bool)
          → load_un_esi s ≡ done e
          → esi_has_key commons s.claves_bloqueadas_por_esis e.name key ≡ b
          → unlock_key fl commons sorting key s ≡ (
              if b
              then despertar fl commons sorting key
                  (send_header (soltada e.name key s) s.socket_c 34)
              else done (send_header s s.socket_c 35))
      unfolding unlock_key soltada
      unlock_key-has key s e b l h = rw l (rw h)

      -- In a valid state STORE returns on every branch and leaves a valid state. If the running ESI
      -- holds the key, the answer is 34, nobody holds the key any more, all other keys stay with their
      -- holders, and the first ESI that waits for the key leaves its queue and is counted by hay_esis;
      -- else the answer is 35 and keys, queue and semaphore stay. Each ESI runs, is ready or waits for a
      -- key as often as before.
      pub unlock_key-Valida :
          (key : Text) (s : Estado F) (e : Esi F)
          → load_un_esi s ≡ done e
          → IsValid commons s
          → Valida
              (esi_has_key commons s.claves_bloqueadas_por_esis e.name key)
              key
              s
              (unlock_key fl commons sorting key s)
      unfolding soltada send_header
      unlock_key-Valida key s e l v =
          elim (Bool-cases (esi_has_key commons s.claves_bloqueadas_por_esis e.name key)) [
            | inl si ↦
                let r =
                  despertar-Valida key (send_header (soltada e.name key s) s.socket_c 34)
                    (tiene_registrada commons s.lista_bloqueados s.claves_bloqueadas_por_esis e.name
                      key v.llaves.registradas si)
                    (soltada-IsValid e.name key s v) in
                rw si record {
                  estado = r.estado;
                  resultado = unlock_key-has key s e true l si ∙ r.resultado;
                  valida = r.valida;
                  claves_eq =
                      r.claves_eq
                      ∙ release_key-sin_clave commons s.claves_bloqueadas_por_esis e.name key
                          v.llaves.exclusivas si;
                  cola_eq = r.cola_eq;
                  hay = r.hay;
                  conserva = r.conserva;
                  enviados_eq = r.enviados_eq;
                }
            | inr no_tiene ↦ rw no_tiene record {
              estado = send_header s s.socket_c 35;
              resultado = unlock_key-has key s e false l no_tiene;
              valida = record {
                llaves = v.llaves;
                punteros = v.punteros;
                hay_le = v.hay_le;
                nadie = v.nadie;
              };
              claves_eq = refl;
              cola_eq = refl;
              hay = refl;
              conserva = λ q. refl;
              enviados_eq = refl;
            }
          ]
