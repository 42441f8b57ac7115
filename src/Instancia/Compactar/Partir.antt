-- ===== src/Instancia/Compactar/Partir.antt =====
-- Tables split behind their runs of free entries, and reads at a known place.
use tp_re_distinto_so.Base.{
  ℕ, suc, if◌then◌else◌, ◌+◌, ◌<◌, ◌≡◌, refl, ap, ◌⊎◌, inl, inr, Bool, false, not, List, [], ◌∷◌,
  ◌++◌, done, length, keep, All, arith, get_elem?, get_elem?-append, some, Bool-cases,
}
use tp_re_distinto_so.Instancia.Estado.{Entrada}
use tp_re_distinto_so.Instancia.Memoria.{at}
use tp_re_distinto_so.Instancia.Compactar.{es_vacia, contar_vacias, contar_ocupadas}
use tp_re_distinto_so.Instancia.Compactar.Mover.{EsVacia}

abbrev pub es_ocupada : Entrada → Bool
es_ocupada e = not (es_vacia e)

abbrev pub EsOcupada : Entrada → Type 0
EsOcupada e = es_vacia e ≡ false

-- The length of the run of free entries at the start.
unfoldable pub vacias_al_frente : List Entrada → ℕ
vacias_al_frente [] = 0
vacias_al_frente (e ∷ es) = if es_vacia e then suc (vacias_al_frente es) else 0

-- Where the entry behind the table can be read, the loop counts the run.
pub contar_vacias-some :
    (b : Bool) (es : List Entrada) → contar_vacias (some b) es ≡ done (vacias_al_frente es)
unfolding contar_vacias vacias_al_frente
contar_vacias-some b [] = refl
contar_vacias-some b (e ∷ es) = elim (Bool-cases (es_vacia e)) [
  | inl v ↦ rw (v, contar_vacias-some b es) refl
  | inr o ↦ rw o refl
]

-- A list split behind its first run of free entries.
pub record Partida (es : List Entrada) : Type 0 where
  pub run : List Entrada
  pub resto : List Entrada
  pub partes : es ≡ run ++ resto
  pub vacias : All EsVacia run
  pub largo : length run ≡ vacias_al_frente es
  pub ocupada :
      (resto ≡ []) ⊎ ((c : Entrada) × (cs : List Entrada) × (resto ≡ c ∷ cs) × EsOcupada c)

pub partir : (es : List Entrada) → Partida es
unfolding vacias_al_frente
partir [] = record {
  run = [];
  resto = [];
  partes = refl;
  vacias = tt;
  largo = refl;
  ocupada = inl refl;
}
partir (e ∷ es) = elim (Bool-cases (es_vacia e)) [
  | inl v ↦
      let p = partir es in
      record {
        run = e ∷ p.run;
        resto = p.resto;
        partes = ap (◌∷◌ e) p.partes;
        vacias = (v, p.vacias);
        largo = rw v (ap suc p.largo);
        ocupada = p.ocupada;
      }
  | inr o ↦ record {
    run = [];
    resto = e ∷ es;
    partes = refl;
    vacias = tt;
    largo = rw o;
    ocupada = inr (e, es, refl, o);
  }
]

pub keep-vacias : (es : List Entrada) → All EsVacia es → keep es_ocupada es ≡ []
keep-vacias [] h = refl
keep-vacias (e ∷ es) h = rw h.0 (keep-vacias es h.1)

pub keep-ocupadas : (es : List Entrada) → All EsOcupada es → keep es_ocupada es ≡ es
keep-ocupadas [] h = refl
keep-ocupadas (e ∷ es) h = rw h.0 (ap (◌∷◌ e) (keep-ocupadas es h.1))

pub vacias_al_frente-All : (es : List Entrada) → All EsVacia es → vacias_al_frente es ≡ length es
unfolding vacias_al_frente
vacias_al_frente-All [] h = refl
vacias_al_frente-All (e ∷ es) h = rw h.0 (ap suc (vacias_al_frente-All es h.1))

pub contar_ocupadas-append :
    (ps rs : List Entrada)
    → All EsOcupada ps
    → All EsVacia rs
    → contar_ocupadas (ps ++ rs) ≡ length ps
unfolding contar_ocupadas
contar_ocupadas-append [] [] h k = refl
contar_ocupadas-append [] (r ∷ rs) h k = rw k.0
contar_ocupadas-append (p ∷ ps) rs h k = rw h.0 (ap suc (contar_ocupadas-append ps rs h.1 k))

pub vacias_al_frente-pos :
    (e : Entrada) (es : List Entrada) → EsVacia e → 0 < vacias_al_frente (e ∷ es)
unfolding vacias_al_frente
vacias_al_frente-pos e es h = rw h (omega arith)

pub leer_tras :
    (tabla P R : List Entrada) (i j : ℕ) (e : Entrada)
    → tabla ≡ P ++ R
    → i ≡ length P + j
    → get_elem? R j ≡ some e
    → at tabla i ≡ done e
unfolding at
leer_tras tabla P R i j e et ij ge = rw (et, at, get_elem?-append P R j i ij, ge)
