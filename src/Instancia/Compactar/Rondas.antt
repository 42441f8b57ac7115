-- ===== src/Instancia/Compactar/Rondas.antt =====
-- The rounds of compactar keep their invariant: taken entries in front, in their order.
use tp_re_distinto_so.Base.{
  ℕ, zero, suc, Bool, some, ◌+◌, ◌*◌, ◌≤◌, ◌<◌, ◌≡◌, refl, ap, sym, ◌∙◌, ◌⊎◌, inl, inr, List, [],
  ◌∷◌, ◌++◌, Outcome, done, length, take, drop, keep, All, All-append, All-append_left,
  All-append_right, All-take, All-drop, All-get_elem?, take-nil, drop-nil, take-pos, drop-pos,
  subst, arith, ◌-◌, length-take, length-drop, get_elem?-in, length-append, append_assoc,
  append-nil, keep-append, take-append-drop, Bool-cases, drop-append, drop-length,
}
use tp_re_distinto_so.Instancia.Estado.{Entrada}
use tp_re_distinto_so.Instancia.Memoria.{at}
use tp_re_distinto_so.Instancia.Memoria.Copias.{at-length}
use tp_re_distinto_so.Instancia.Compactar.{Almacen, es_vacia, mover, compactar_en, compactar_desde}
use tp_re_distinto_so.Instancia.Compactar.Mover.{EsVacia, EsAtomica, Movido, mover_lem, mover-fin}
use tp_re_distinto_so.Instancia.Compactar.Partir.{
  vacias_al_frente, contar_vacias-some, es_ocupada, EsOcupada, partir, keep-vacias,
  vacias_al_frente-All, vacias_al_frente-pos, leer_tras,
}

module _ (leida : Bool) (cant t i : ℕ) (a : Almacen) (e : Entrada)
    (read : at a.tabla i ≡ done e) where
  -- What the round does at a free entry.
  paso_vacia :
      EsVacia e
      → compactar_en (some leida) cant t i a
        ≡ mover cant t (vacias_al_frente (drop i a.tabla)) (vacias_al_frente (drop i a.tabla)) i a
  unfolding compactar_en
  paso_vacia v = rw (read, v, contar_vacias-some leida (drop i a.tabla))

  paso_ocupada : EsOcupada e → compactar_en (some leida) cant t i a ≡ done a
  unfolding compactar_en
  paso_ocupada o = rw (read, o)

module _ (leida : Bool) (cant t : ℕ) (t0 : List Entrada) where
  -- Before the round i: the first entries are taken, and there are i of them or the others are free.
  pub record Compactado (i : ℕ) (a : Almacen) : Type 0 where
    pub frente : List Entrada
    pub resto : List Entrada
    pub tabla : a.tabla ≡ frente ++ resto
    pub ocupadas : All EsOcupada frente
    pub listo : (length frente ≡ i) ⊎ (All EsVacia resto × (length frente ≤ i))
    pub conserva : keep es_ocupada a.tabla ≡ keep es_ocupada t0
    pub atomicas : All (EsAtomica t) resto
    pub largo : length a.tabla ≡ cant
    pub memoria : length a.mem ≡ cant * t

  -- The round, by what stands at i.
  pub record Ronda (i : ℕ) (a : Almacen) (m : Outcome Almacen) : Type 0 where
    pub almacen : Almacen
    pub resultado : m ≡ done almacen
    pub compactado : Compactado (suc i) almacen

  ronda_ocupada :
      (P R : List Entrada) (e : Entrada) (a : Almacen)
      → EsOcupada e
      → All EsOcupada P
      → a.tabla ≡ P ++ e ∷ R
      → keep es_ocupada a.tabla ≡ keep es_ocupada t0
      → All (EsAtomica t) R
      → length a.tabla ≡ cant
      → length a.mem ≡ cant * t
      → Ronda (length P) a (compactar_en (some leida) cant t (length P) a)
  ronda_ocupada P R e a o os et k ats lt lm = record {
    almacen = a;
    resultado = paso_ocupada leida cant t (length P) a e (rw et (at-length P e R)) o;
    compactado = record {
      frente = P ++ e ∷ [];
      resto = R;
      tabla = rw (append_assoc P (e ∷ []) R) et;
      ocupadas = All-append EsOcupada P (e ∷ []) os (o, tt);
      listo = inl (omega (arith, length-append P (e ∷ [])));
      conserva = k;
      atomicas = ats;
      largo = lt;
      memoria = lm;
    };
  }

  keep_movida :
      (P V V' C : List Entrada) (n : ℕ)
      → All EsVacia V
      → All EsVacia V'
      → keep es_ocupada ((P ++ take n C) ++ (V' ++ drop n C)) ≡ keep es_ocupada (P ++ (V ++ C))
  keep_movida P V V' C n vs vs' =
      let o = es_ocupada in
      let partes : keep o C ≡ keep o (take n C) ++ keep o (drop n C) =
        sym (ap (keep o) (take-append-drop n C)) ∙ keep-append o (take n C) (drop n C) in
      rw (
        keep-append o (P ++ take n C) (V' ++ drop n C),
        keep-append o P (take n C),
        keep-append o V' (drop n C),
        keep-vacias V' vs',
        keep-append o P (V ++ C),
        keep-append o V C,
        keep-vacias V vs,
        partes,
        append_assoc (keep o P),
      )

  largo_movida :
      (P V C : List Entrada) (n : ℕ) (a : Almacen) (o : Outcome Almacen)
      (m : Movido cant t n n P C o)
      → a.tabla ≡ P ++ (V ++ C)
      → length V ≡ n
      → length a.tabla ≡ cant
      → length m.almacen.tabla ≡ cant
  largo_movida P V C n a o m et lv lt = omega (
    arith,
    ap length m.tabla,
    length-append (P ++ take n C) (m.run ++ drop n C),
    length-append P (take n C),
    length-append m.run (drop n C),
    length-take n C,
    length-drop n C,
    ap length et,
    length-append P (V ++ C),
    length-append V C,
  )

  movida_compactada :
      (P V C : List Entrada) (n : ℕ) (a : Almacen) (o : Outcome Almacen)
      (m : Movido cant t n n P C o)
      → 0 < n
      → All EsOcupada P
      → ((C ≡ []) ⊎ ((c : Entrada) × (cs : List Entrada) × (C ≡ c ∷ cs) × EsOcupada c))
      → a.tabla ≡ P ++ (V ++ C)
      → keep es_ocupada a.tabla ≡ keep es_ocupada t0
      → All EsVacia V
      → All (EsAtomica t) C
      → length V ≡ n
      → length a.tabla ≡ cant
      → Compactado (suc (length P)) m.almacen
  movida_compactada P V C n a o m pn os (inl e) et k vs ats lv lt = record {
    frente = P;
    resto = m.run;
    tabla =
        let te : take n C ≡ [] = rw e (take-nil n) in
        let de : drop n C ≡ [] = rw e (drop-nil n) in
        m.tabla ∙ rw (te, de, append-nil P, append-nil m.run);
    ocupadas = os;
    listo = inr (m.vacias, omega arith);
    conserva =
        ap (keep es_ocupada) m.tabla
        ∙ keep_movida P V m.run C n vs m.vacias
        ∙ ap (keep es_ocupada) (sym et)
        ∙ k;
    atomicas = m.atomicas;
    largo = largo_movida P V C n a o m et lv lt;
    memoria = m.memoria;
  }
  movida_compactada P V C n a o m pn os (inr (c, cs, e, oc)) et k vs ats lv lt = record {
    frente = P ++ c ∷ [];
    resto = take (n - 1) cs ++ (m.run ++ drop (n - 1) cs);
    tabla =
        let te : take n C ≡ c ∷ take (n - 1) cs = rw e (take-pos n c cs pn) in
        let de : drop n C ≡ drop (n - 1) cs = rw e (drop-pos n c cs pn) in
        m.tabla ∙ rw (te, de) (simp append_assoc);
    ocupadas = All-append EsOcupada P (c ∷ []) os (oc, tt);
    listo = inl (omega (arith, length-append P (c ∷ [])));
    conserva =
        ap (keep es_ocupada) m.tabla
        ∙ keep_movida P V m.run C n vs m.vacias
        ∙ ap (keep es_ocupada) (sym et)
        ∙ k;
    atomicas =
        let acs : All (EsAtomica t) (c ∷ cs) = subst (All (EsAtomica t)) e ats in
        All-append (EsAtomica t) (take (n - 1) cs) (m.run ++ drop (n - 1) cs)
          (All-take (EsAtomica t) (n - 1) cs acs.1)
          (All-append (EsAtomica t) m.run (drop (n - 1) cs) m.atomicas
            (All-drop (EsAtomica t) (n - 1) cs acs.1));
    largo = largo_movida P V C n a o m et lv lt;
    memoria = m.memoria;
  }

  -- The entry at i is free, and behind its run stands a taken one, or nothing.
  ronda_vacia :
      (P R : List Entrada) (e : Entrada) (a : Almacen)
      → EsVacia e
      → All EsOcupada P
      → a.tabla ≡ P ++ e ∷ R
      → keep es_ocupada a.tabla ≡ keep es_ocupada t0
      → All (EsAtomica t) (e ∷ R)
      → length a.tabla ≡ cant
      → length a.mem ≡ cant * t
      → Ronda (length P) a (compactar_en (some leida) cant t (length P) a)
  ronda_vacia P R e a vac os et k ats lt lm =
      let p = partir (e ∷ R) in
      let n = vacias_al_frente (e ∷ R) in
      let positive : 0 < n = vacias_al_frente-pos e R vac in
      let ats' : All (EsAtomica t) (p.run ++ p.resto) = subst (All (EsAtomica t)) p.partes ats in
      let m =
        mover_lem cant t n n P p.run p.resto a positive p.largo p.vacias
          (All-append_left (EsAtomica t) p.run p.resto ats')
          (All-append_right (EsAtomica t) p.run p.resto ats') (rw (← p.partes) et) lt lm in
      let read : at a.tabla (length P) ≡ done e = rw et (at-length P e R) in
      let suffix : drop (length P) a.tabla ≡ e ∷ R = rw et (drop-length P (e ∷ R)) in
      record {
        almacen = m.almacen;
        resultado =
            paso_vacia leida cant t (length P) a e read vac
            ∙ ap (λ k. mover cant t k k (length P) a) (ap vacias_al_frente suffix)
            ∙ m.resultado;
        compactado =
            movida_compactada P p.run p.resto n a _ m positive os p.ocupada (rw (← p.partes) et) k
              p.vacias (All-append_right (EsAtomica t) p.run p.resto ats') p.largo lt;
      }

  -- Nothing is left to move.
  ronda_lista :
      (i : ℕ) (P R : List Entrada) (a : Almacen)
      → All EsOcupada P
      → All EsVacia R
      → length P ≤ i
      → i < cant
      → a.tabla ≡ P ++ R
      → keep es_ocupada a.tabla ≡ keep es_ocupada t0
      → All (EsAtomica t) R
      → length a.tabla ≡ cant
      → length a.mem ≡ cant * t
      → Ronda i a (compactar_en (some leida) cant t i a)
  ronda_lista i P R a os vs le lt et k ats la lm =
      let total : length P + length R ≡ cant = omega (arith, ap length et, length-append P R) in
      let j : ℕ = i - length P in
      let ij : i ≡ length P + j = omega arith in
      let (e, ge) = get_elem?-in R j (omega arith) in
      let read : at a.tabla i ≡ done e = leer_tras a.tabla P R i j e et ij ge in
      let vac : EsVacia e = All-get_elem? EsVacia R j e vs ge in
      let suffix : vacias_al_frente (drop i a.tabla) ≡ length R - j =
        rw (et, drop-append P R j i ij)
          (vacias_al_frente-All (drop j R) (All-drop EsVacia j R vs) ∙ length-drop j R) in
      record {
        almacen = a;
        resultado =
            paso_vacia leida cant t i a e read vac
            ∙ mover-fin cant t (vacias_al_frente (drop i a.tabla))
                (vacias_al_frente (drop i a.tabla)) i a (omega arith);
        compactado = record {
          frente = P;
          resto = R;
          tabla = et;
          ocupadas = os;
          listo = inr (vs, omega arith);
          conserva = k;
          atomicas = ats;
          largo = la;
          memoria = lm;
        };
      }

  ronda :
      (i : ℕ) (a : Almacen)
      → i < cant
      → Compactado i a
      → Ronda i a (compactar_en (some leida) cant t i a)
  ronda i a h c = elim c.listo [
    | inr (vs, le) ↦
        ronda_lista i c.frente c.resto a c.ocupadas vs le h c.tabla c.conserva c.atomicas c.largo
          c.memoria
    | inl e ↦
        subst (λ j. Ronda j a (compactar_en (some leida) cant t j a)) e
          (en_frente c.resto c.tabla c.atomicas e)
  ]
    where
      en_frente :
          (R : List Entrada)
          → a.tabla ≡ c.frente ++ R
          → All (EsAtomica t) R
          → length c.frente ≡ i
          → Ronda (length c.frente) a (compactar_en (some leida) cant t (length c.frente) a)
      en_frente [] et ats e =
          absurd (omega (arith, ap length et, length-append c.frente [], c.largo))
      en_frente (e ∷ R) et ats _ = elim (Bool-cases (es_vacia e)) [
        | inl v ↦ ronda_vacia c.frente R e a v c.ocupadas et c.conserva ats c.largo c.memoria
        | inr o ↦ ronda_ocupada c.frente R e a o c.ocupadas et c.conserva ats.1 c.largo c.memoria
      ]

  pub rondas :
      (r i : ℕ) (a : Almacen)
      → i + r ≡ cant
      → Compactado i a
      → (b : Almacen) × (compactar_desde (some leida) cant t r i a ≡ done b) × Compactado cant b
  unfolding compactar_desde
  rondas zero i a e c = (a, refl, subst (λ j. Compactado j a) (omega arith) c)
  rondas (suc r) i a e c =
      let w = ronda i a (omega arith) c in
      let (b, eq, cb) = rondas r (suc i) w.almacen (omega arith) w.compactado in
      (b, let s : i + 1 ≡ suc i = omega arith in rw (w.resultado, s) eq, cb)
