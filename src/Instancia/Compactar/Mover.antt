-- ===== src/Instancia/Compactar/Mover.antt =====
-- The loop of compactar that moves a block of entries over a run of free ones.
use tp_re_distinto_so.Base.{
  ℕ, zero, suc, ◌+◌, ◌*◌, ◌≤◌, ◌<◌, ◌≡◌, refl, ap, ◌∙◌, true, List, [], ◌∷◌, ◌++◌, Outcome, done,
  lt→ltb, length, take, drop, set, All, All-append, arith, length-append, append_assoc, append-nil,
  set-append, get_elem?-append, get_elem?-length, set-length, str_eq,
}
use tp_re_distinto_so.Instancia.Estado.{Entrada}
use tp_re_distinto_so.Instancia.Memoria.{at}
use tp_re_distinto_so.Instancia.Memoria.Copias.{read_bytes-total, write_bytes-total, page-le}
use tp_re_distinto_so.Instancia.Compactar.{Almacen, es_vacia, libre, mover_entrada, mover}

-- A free entry, and an entry whose value takes one page at most.
abbrev pub EsVacia : Entrada → Type 0
EsVacia e = es_vacia e ≡ true

pub libre-EsVacia : EsVacia libre
unfolding es_vacia str_eq
libre-EsVacia = refl

abbrev pub EsAtomica : ℕ → Entrada → Type 0
EsAtomica t e = e.tamanio ≤ t

module _ (cant t v : ℕ) where
  -- What the loop leaves of A ++ (V ++ C), where V is a run of v free entries: `r` entries of C stand
  -- before the run.
  pub record Movido (r : ℕ) (A C : List Entrada) (m : Outcome Almacen) : Type 0 where
    pub almacen : Almacen
    pub run : List Entrada
    pub resultado : m ≡ done almacen
    pub tabla : almacen.tabla ≡ (A ++ take r C) ++ (run ++ drop r C)
    pub vacias : All EsVacia run
    pub atomicas : All (EsAtomica t) run
    pub largo : length run ≡ v
    pub memoria : length almacen.mem ≡ cant * t

  pub mover_entrada-fin : (x : ℕ) (a : Almacen) → cant ≤ x + v → mover_entrada cant t v x a ≡ done a
  unfolding mover_entrada
  mover_entrada-fin x a h = ground arith

  pub mover-fin : (r x : ℕ) (a : Almacen) → cant ≤ x + v → mover cant t v r x a ≡ done a
  unfolding mover
  mover-fin zero x a h = refl
  mover-fin (suc r) x a h = rw (mover_entrada-fin x a h) (mover-fin r (x + 1) a (omega arith))

  set_twice :
      (A V C : List Entrada) (z c : Entrada)
      → set (set (A ++ ((z ∷ V) ++ c ∷ C)) (length A) c) (length A + length (z ∷ V)) libre
        ≡ (A ++ c ∷ []) ++ ((V ++ libre ∷ []) ++ C)
  set_twice A V C z c = rw (
    set-length A z c (V ++ c ∷ C),
    set-append A (c ∷ (V ++ c ∷ C)) (suc (length V)) (length A + suc (length V)) libre refl,
    set-length V c libre C,
    append_assoc A (c ∷ []),
    append_assoc V (libre ∷ []) C,
  )

  leer_movida :
      (A V C : List Entrada) (z c : Entrada) (tabla : List Entrada)
      → tabla ≡ A ++ ((z ∷ V) ++ c ∷ C)
      → at tabla (length A + length (z ∷ V)) ≡ done c
  unfolding at
  leer_movida A V C z c tabla e = rw (
    e,
    at,
    get_elem?-append A ((z ∷ V) ++ c ∷ C) (length (z ∷ V)) (length A + length (z ∷ V)) refl,
    get_elem?-length (z ∷ V) c C,
  )

  mover_entrada_lem :
      (A V C : List Entrada) (z c : Entrada) (a : Almacen)
      → length (z ∷ V) ≡ v
      → a.tabla ≡ A ++ ((z ∷ V) ++ c ∷ C)
      → length a.tabla ≡ cant
      → length a.mem ≡ cant * t
      → c.tamanio ≤ t
      → (m : List ℕ) × (mover_entrada cant t v (length A) a
          ≡ done (record { tabla = (A ++ c ∷ []) ++ ((V ++ libre ∷ []) ++ C); mem = m }))
        × (length m ≡ cant * t)
  unfolding mover_entrada
  mover_entrada_lem A V C z c a lv et lt lm h =
      let total : suc (length A + v + length C) ≡ cant =
        omega (
          arith,
          ap length et,
          length-append A ((z ∷ V) ++ c ∷ C),
          length-append (z ∷ V) (c ∷ C),
        ) in
      let inside : length A + v < cant = omega arith in
      let read : at a.tabla (length A + v) ≡ done c =
        rw (← lv) (leer_movida A V C z c a.tabla et) in
      let written : set (set a.tabla (length A) c) (length A + v) libre
          ≡ (A ++ c ∷ []) ++ ((V ++ libre ∷ []) ++ C) =
        rw (et, ← lv) (set_twice A V C z c) in
      let (bs, rb, lb) =
        read_bytes-total a.mem ((length A + v) * t) c.tamanio
          (rw lm (page-le (length A + v) cant t c.tamanio inside h)) in
      let (m, wb, lw) =
        write_bytes-total a.mem (length A * t) bs
          (rw (lm, lb) (page-le (length A) cant t c.tamanio (omega arith) h)) in
      (m, rw (lt→ltb (length A + v) cant inside, read, rb, wb, written), lw ∙ lm)

  pub mover_lem :
      (r : ℕ) (A V C : List Entrada) (a : Almacen)
      → 0 < v
      → length V ≡ v
      → All EsVacia V
      → All (EsAtomica t) V
      → All (EsAtomica t) C
      → a.tabla ≡ A ++ (V ++ C)
      → length a.tabla ≡ cant
      → length a.mem ≡ cant * t
      → Movido r A C (mover cant t v r (length A) a)
  unfolding mover
  mover_lem zero A V C a p lv vs ats cs et lt lm = record {
    almacen = a;
    run = V;
    resultado = refl;
    tabla = rw (append-nil A) et;
    vacias = vs;
    atomicas = ats;
    largo = lv;
    memoria = lm;
  }
  mover_lem (suc r) A V [] a p lv vs ats cs et lt lm = record {
    almacen = a;
    run = V;
    resultado =
        mover-fin (suc r) (length A) a
          (omega (arith, ap length et, length-append A (V ++ []), length-append V []));
    tabla = rw (append-nil A) et;
    vacias = vs;
    atomicas = ats;
    largo = lv;
    memoria = lm;
  }
  mover_lem (suc r) A [] (c ∷ C) a p lv vs ats cs et lt lm = absurd (omega arith)
  mover_lem (suc r) A (z ∷ V) (c ∷ C) a p lv vs ats cs et lt lm =
      let (m, step, lm') = mover_entrada_lem A V C z c a lv et lt lm cs.0 in
      let a' : Almacen = record { tabla = (A ++ c ∷ []) ++ ((V ++ libre ∷ []) ++ C); mem = m } in
      let w =
        mover_lem r (A ++ c ∷ []) (V ++ libre ∷ []) C a' p
          (omega (arith, length-append V (libre ∷ [])))
          (All-append EsVacia V (libre ∷ []) vs.1 (libre-EsVacia, tt))
          (All-append (EsAtomica t) V (libre ∷ []) ats.1 (omega arith, tt)) cs.1 refl
          (omega (
            arith,
            length-append (A ++ c ∷ []) ((V ++ libre ∷ []) ++ C),
            length-append A (c ∷ []),
            length-append (V ++ libre ∷ []) C,
            length-append V (libre ∷ []),
            ap length et,
            length-append A ((z ∷ V) ++ c ∷ C),
            length-append (z ∷ V) (c ∷ C),
          ))
          lm' in
      record {
        almacen = w.almacen;
        run = w.run;
        resultado = rw (step, ← length-append A (c ∷ [])) w.resultado;
        tabla = w.tabla ∙ ap (λ xs. xs ++ (w.run ++ drop r C)) (append_assoc A (c ∷ []) (take r C));
        vacias = w.vacias;
        atomicas = w.atomicas;
        largo = w.largo;
        memoria = w.memoria;
      }
