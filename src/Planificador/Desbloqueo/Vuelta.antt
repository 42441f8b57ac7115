-- ===== src/Planificador/Desbloqueo/Vuelta.antt =====
-- An ESI that is freed comes back: it goes to lista_ready, or it runs and the running one goes there.
use tp_re_distinto_so.Base.{
  ℕ, suc, ◌+◌, ◌<◌, ◌≤◌, ◌⊎◌, count, count-append, ap, ◌≡◌, refl, sym, ◌∙◌, subst, List, [], ◌∷◌,
  ◌++◌, Option, none, some, Commons, Outcome, done, fault, ◌>>=◌, if◌then◌else◌, length,
  length-append, length-set, All-append, arith, Bool-cases, inl, inr,
}
use tp_re_distinto_so.Planificador.Estado.{
  Algorithm, sjfsd, sjfcd, hrrn, Floats, Esi, ClaveBloqueada, Estado, load, store,
}
use tp_re_distinto_so.Planificador.Estimacion.{nueva_estimacion, calculate_estimation}
use tp_re_distinto_so.Planificador.Claves.Validez.{Llaves, Punteros, EsPuntero, load-total}
use tp_re_distinto_so.Planificador.Desbloqueo.{
  add_ready, desalojar, sin_espera, a_ready, reincorporar_por, reincorporar, liberar_por,
}

Punteros-ready :
    {n : ℕ} {u : Option ℕ} {ready : List ℕ} {lista : List ClaveBloqueada} (p : ℕ)
    → p < n
    → Punteros n u ready lista
    → Punteros n u (ready ++ p ∷ []) lista
Punteros-ready {n} {ready = ready} p h w = record {
  actual = w.actual;
  es_actual = w.es_actual;
  actual_en = w.actual_en;
  ready_en = All-append (EsPuntero n) ready (p ∷ []) w.ready_en (h, tt);
  colas_en = w.colas_en;
}

-- How often the ESI `q` stands in the queues of the keys.
abbrev pub en_colas : ℕ → List ClaveBloqueada → ℕ
en_colas q [] = 0
en_colas q (k ∷ lista) = count q k.cola_esis_bloqueados + en_colas q lista

-- How often it runs or is ready.
abbrev activo : ℕ → Option ℕ → List ℕ → ℕ
activo q none ready = count q ready
activo q (some u) ready = count q (u ∷ ready)

pub activo-igual :
    (q : ℕ) (u : Option ℕ) (xs ys : List ℕ)
    → count q xs ≡ count q ys
    → activo q u xs ≡ activo q u ys
activo-igual q none xs ys e = e
activo-igual q (some u) xs ys e = ground (arith, e)

activo-append :
    (q p : ℕ) (u : Option ℕ) (ready : List ℕ)
    → activo q u (ready ++ p ∷ []) ≡ count q (p ∷ []) + activo q u ready
activo-append q p none ready = omega (arith, count-append q ready (p ∷ []))
activo-append q p (some u) ready = ground (arith, count-append q ready (p ∷ []))

-- Of the ESI that runs and the one that comes back the one is ready and the other runs.
activo-cambio :
    (q p u : ℕ) (ready : List ℕ)
    → activo q (some p) (ready ++ u ∷ []) ≡ count q (p ∷ []) + activo q (some u) ready
activo-cambio q p u ready = ground (arith, count-append q ready (u ∷ []))

module _ {F : Type 0} where
  -- How often the ESI runs, is ready or waits for a key.
  abbrev pub esis_en : ℕ → Estado F → ℕ
  esis_en q s = activo q s.un_esi s.lista_ready + en_colas q s.lista_bloqueados

  -- The invariant without the semaphore of the ready ESIs.
  pub record Nucleo (commons : Commons) (s : Estado F) : Type 0 where
    pub llaves : Llaves commons s.lista_bloqueados s.claves_bloqueadas_por_esis
    pub punteros : Punteros (length s.esis) s.un_esi s.lista_ready s.lista_bloqueados
    pub nadie : s.esi_executing ≡ 0

  -- `m` ends in a state where the ESI `p` is ready or runs besides those that were ready or ran before,
  -- with one ready ESI more and the same keys, counts and messages.
  pub record Vuelve (commons : Commons) (p : ℕ) (s : Estado F) (m : Outcome (Estado F))
      : Type 0 where
    pub estado : Estado F
    pub resultado : m ≡ done estado
    pub nucleo : Nucleo commons estado
    pub ready : length estado.lista_ready ≡ suc (length s.lista_ready)
    pub quedan : (q : ℕ) → count q s.lista_ready ≤ count q estado.lista_ready
    pub conserva : (q : ℕ) → esis_en q estado ≡ count q (p ∷ []) + esis_en q s
    pub corre : (estado.un_esi ≡ s.un_esi) ⊎ (estado.un_esi ≡ some p)
    pub hay : estado.hay_esis ≡ s.hay_esis
    pub claves : estado.claves_bloqueadas_por_esis ≡ s.claves_bloqueadas_por_esis
    pub lista : estado.lista_bloqueados ≡ s.lista_bloqueados
    pub enviados : estado.enviados ≡ s.enviados

  module _ (commons : Commons) where
    pub store-Nucleo :
        (s : Estado F) (p : ℕ) (e : Esi F) → Nucleo commons s → Nucleo commons (store s p e)
    unfolding store
    store-Nucleo s p e w = record {
      llaves = w.llaves;
      punteros =
          subst (λ n. Punteros n s.un_esi s.lista_ready s.lista_bloqueados)
            (sym (length-set s.esis p e)) w.punteros;
      nadie = w.nadie;
    }

    almacen_igual :
        (s : Estado F) (p : ℕ) (e : Esi F) → p < length s.esis → p < length (store s p e).esis
    unfolding store
    almacen_igual s p e h = omega (arith, length-set s.esis p e)

    a_ready-Vuelve :
        (p : ℕ) (s : Estado F)
        → p < length s.esis
        → Nucleo commons s
        → Vuelve commons p s (a_ready p s)
    unfolding a_ready
    a_ready-Vuelve p s h w = record {
      estado = add_ready p s;
      resultado = refl;
      nucleo = record {
        llaves = w.llaves;
        punteros = Punteros-ready p h w.punteros;
        nadie = w.nadie;
      };
      ready = omega (arith, length-append s.lista_ready (p ∷ []));
      quedan = λ q. omega (arith, count-append q s.lista_ready (p ∷ []));
      conserva = λ q. omega (arith, activo-append q p s.un_esi s.lista_ready);
      corre = inl refl;
      hay = refl;
      claves = refl;
      lista = refl;
      enviados = refl;
    }

    module _ (fl : Floats F) where
      sin_espera-Vuelve :
          (p : ℕ) (s : Estado F)
          → p < length s.esis
          → Nucleo commons s
          → Vuelve commons p s (sin_espera fl p s)
      unfolding sin_espera a_ready store
      sin_espera-Vuelve p s h w =
          let (e, l) = load-total s p h in
          let e' : Esi F = record e { waiting_time = fl.of_int 0 } in
          let s' = store s p e' in
          let r = a_ready-Vuelve p s' (almacen_igual s p e' h) (store-Nucleo s p e' w) in
          record {
            estado = r.estado;
            resultado = rw l r.resultado;
            nucleo = r.nucleo;
            ready = r.ready;
            quedan = r.quedan;
            conserva = r.conserva;
            corre = r.corre;
            hay = r.hay;
            claves = r.claves;
            lista = r.lista;
            enviados = r.enviados;
          }

      desalojar-some :
          (p u : ℕ) (s : Estado F) (otro un : Esi F)
          → s.un_esi ≡ some u
          → load s p ≡ done otro
          → load s u ≡ done un
          → desalojar fl p s ≡ (
              if fl.lt otro.cpu_time_estimated un.cpu_time_estimated
              then done (record (add_ready u s) { un_esi = some p })
              else done (add_ready p s))
      unfolding desalojar
      desalojar-some p u s otro un e lp lu =
          subst
            (λ o.
              elim o [
                | none ↦ fault
                | some v ↦ do
                  otro' ← load s p
                  un' ← load s v
                  if fl.lt otro'.cpu_time_estimated un'.cpu_time_estimated
                      then done (record (add_ready v s) { un_esi = some p })
                      else done (add_ready p s)
              ]
              ≡ (if fl.lt otro.cpu_time_estimated un.cpu_time_estimated
                  then done (record (add_ready u s) { un_esi = some p })
                  else done (add_ready p s)))
            (sym e) (rw (lp, lu))

      desalojar-Vuelve :
          (p : ℕ) (s : Estado F)
          → p < length s.esis
          → Nucleo commons s
          → Vuelve commons p s (desalojar fl p s)
      unfolding add_ready
      desalojar-Vuelve p s h w =
          let q = w.punteros in
          let (otro, lp) = load-total s p h in
          let (un, lu) = load-total s q.actual q.actual_en in
          let paso = desalojar-some p q.actual s otro un q.es_actual lp lu in
          elim (Bool-cases (fl.lt otro.cpu_time_estimated un.cpu_time_estimated)) [
            | inl menor ↦
                let q' = Punteros-ready q.actual q.actual_en q in
                record {
                  estado = record (add_ready q.actual s) { un_esi = some p };
                  resultado = paso ∙ rw menor;
                  nucleo = record {
                    llaves = w.llaves;
                    punteros = record {
                      actual = p;
                      es_actual = refl;
                      actual_en = h;
                      ready_en = q'.ready_en;
                      colas_en = q.colas_en;
                    };
                    nadie = w.nadie;
                  };
                  ready = omega (arith, length-append s.lista_ready (q.actual ∷ []));
                  quedan = λ x. omega (arith, count-append x s.lista_ready (q.actual ∷ []));
                  conserva = λ x. omega (
                    arith,
                    activo-cambio x p q.actual s.lista_ready,
                    ap (λ o. activo x o s.lista_ready) q.es_actual,
                  );
                  corre = inr refl;
                  hay = refl;
                  claves = refl;
                  lista = refl;
                  enviados = refl;
                }
            | inr no_menor ↦
                let r = a_ready-Vuelve p s h w in
                record {
                  estado = add_ready p s;
                  resultado = paso ∙ rw no_menor;
                  nucleo = record {
                    llaves = w.llaves;
                    punteros = Punteros-ready p h q;
                    nadie = w.nadie;
                  };
                  ready = omega (arith, length-append s.lista_ready (p ∷ []));
                  quedan = λ x. omega (arith, count-append x s.lista_ready (p ∷ []));
                  conserva = λ x. omega (arith, activo-append x p s.un_esi s.lista_ready);
                  corre = inl refl;
                  hay = refl;
                  claves = refl;
                  lista = refl;
                  enviados = refl;
                }
          ]

      liberar_por-Vuelve :
          (a : Algorithm) (p : ℕ) (s : Estado F)
          → p < length s.esis
          → Nucleo commons s
          → Vuelve commons p s (liberar_por fl a p s)
      unfolding liberar_por
      liberar_por-Vuelve sjfsd p s h w = a_ready-Vuelve p s h w
      liberar_por-Vuelve sjfcd p s h w = a_ready-Vuelve p s h w
      liberar_por-Vuelve hrrn p s h w = sin_espera-Vuelve p s h w

      reincorporar_por-Vuelve :
          (a : Algorithm) (p : ℕ) (s : Estado F)
          → p < length s.esis
          → Nucleo commons s
          → Vuelve commons p s (reincorporar_por fl a p s)
      unfolding reincorporar_por
      reincorporar_por-Vuelve sjfsd p s h w = a_ready-Vuelve p s h w
      reincorporar_por-Vuelve sjfcd p s h w = desalojar-Vuelve p s h w
      reincorporar_por-Vuelve hrrn p s h w = sin_espera-Vuelve p s h w

      -- The estimation comes first, in both.
      tras_estimacion :
          (por : Algorithm → ℕ → Estado F → Outcome (Estado F))
          → ((a : Algorithm) (p : ℕ) (s : Estado F)
              → p < length s.esis
              → Nucleo commons s
              → Vuelve commons p s (por a p s))
          → (p : ℕ) (s : Estado F) → p < length s.esis
          → Nucleo commons s
          → Vuelve commons p s (calculate_estimation fl p s >>= λ s'. por s'.algorithm p s')
      unfolding calculate_estimation store
      tras_estimacion por vuelve p s h w =
          let (e, l) = load-total s p h in
          let e' = nueva_estimacion fl s.alpha e in
          let r =
            vuelve s.algorithm p (store s p e') (almacen_igual s p e' h) (store-Nucleo s p e' w) in
          record {
            estado = r.estado;
            resultado = rw l r.resultado;
            nucleo = r.nucleo;
            ready = r.ready;
            quedan = r.quedan;
            conserva = r.conserva;
            corre = r.corre;
            hay = r.hay;
            claves = r.claves;
            lista = r.lista;
            enviados = r.enviados;
          }

      -- What unlock_key does with the ESI at the front of the queue, under each of the algorithms: it
      -- ends and keeps the invariant, the keys, the list of keys and hay_esis, which the caller posts.
      -- The running ESI goes on or the freed one runs; each ESI runs, is ready or waits for a key as
      -- often as before, the freed one once more; who was ready still is, and one more.
      pub reincorporar-Vuelve :
          (p : ℕ) (s : Estado F)
          → p < length s.esis
          → Nucleo commons s
          → Vuelve commons p s (reincorporar fl p s)
      unfolding reincorporar
      reincorporar-Vuelve = tras_estimacion (reincorporar_por fl) reincorporar_por-Vuelve

      pub liberar-Vuelve :
          (p : ℕ) (s : Estado F)
          → p < length s.esis
          → Nucleo commons s
          → Vuelve commons p s
              (calculate_estimation fl p s >>= λ s'. liberar_por fl s'.algorithm p s')
      liberar-Vuelve = tras_estimacion (liberar_por fl) liberar_por-Vuelve
