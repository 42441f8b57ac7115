-- ===== src/Planificador/Desbloqueo/Termino.antt =====
-- release_keys_and_unlock_esis and finish_esi: the ESI that ends gives back its keys.
use tp_re_distinto_so.Base.{
  All-find_first, keep-remove_first, keep-none, length-remove_first, ℕ, zero, suc, ◌≤◌, ◌<◌, ◌≡◌,
  refl, sym, ◌∙◌, ap, subst, Bool, false, not, List, [], ◌∷◌, ◌++◌, Option, none, some, Text,
  Commons, Outcome, done, ◌>>=◌, if◌then◌else◌, find_first, remove_first, keep, length, arith,
  count,
}
use tp_re_distinto_so.Planificador.Estado.{Floats, Esi, ClavePorEsi, Estado, load}
use tp_re_distinto_so.Planificador.Claves.Listas.{EsRegistrada}
use tp_re_distinto_so.Planificador.Desbloqueo.{
  unlock_esi, is_of_esi, release_keys, release_keys_and_unlock_esis, finish_esi,
}
use tp_re_distinto_so.Planificador.Desbloqueo.Vuelta.{esis_en, Nucleo}
use tp_re_distinto_so.Planificador.Desbloqueo.Liberacion.{
  Sigue, sin_cambio, Sigue-igual, quitar-Nucleo, unlock_esi-Sigue,
}

module _ (commons : Commons) where
  module _ {F : Type 0} where
    module _ (fl : Floats F) where
      -- The entries of the ESI `name` go, all of them and no other.
      abbrev pub sin_las_de : Text → List ClavePorEsi → List ClavePorEsi
      sin_las_de name claves = keep (λ c. not (commons.equals_ignore_case c.esi_id name)) claves

      sin : Text → Estado F → Estado F
      sin name s = record s {
        claves_bloqueadas_por_esis =
            remove_first (is_of_esi fl commons name) s.claves_bloqueadas_por_esis;
      }

      ronda : ℕ → Text → Estado F → Option ClavePorEsi → Outcome (Estado F)
      ronda fuel name s o = elim o [
        | none ↦ done s
        | some i ↦
            unlock_esi fl commons i.key (sin name s) >>= λ s'. release_keys fl commons fuel name s'
      ]

      release_keys-ronda :
          (fuel : ℕ) (name : Text) (s : Estado F) (o : Option ClavePorEsi)
          → find_first (is_of_esi fl commons name) s.claves_bloqueadas_por_esis ≡ o
          → release_keys fl commons (suc fuel) name s ≡ ronda fuel name s o
      unfolding release_keys ronda sin
      release_keys-ronda fuel name s o e = ap (ronda fuel name s) e

      Sigue-luego :
          (claves claves' : List ClavePorEsi) (s s' : Estado F) (m : Outcome (Estado F))
          (f : Estado F → Outcome (Estado F))
          → ((q : ℕ) → count q s.lista_ready ≤ count q s'.lista_ready)
          → ((q : ℕ) → esis_en q s' ≡ esis_en q s)
          → s'.enviados ≡ s.enviados
          → s'.hay_esis ≡ s.hay_esis
          → m ≡ done s'
          → Sigue commons claves' s' (f s')
          → claves' ≡ claves
          → Sigue commons claves s (m >>= f)
      Sigue-luego claves claves' s s' m f l n v h e r i = record {
        estado = r.estado;
        resultado = rw e r.resultado;
        nucleo = r.nucleo;
        quedan = λ q. omega (arith, r.quedan q, l q);
        conserva = λ q. r.conserva q ∙ n q;
        enviados = r.enviados ∙ v;
        hay = r.hay ∙ h;
        claves_eq = r.claves_eq ∙ i;
      }

      una_ronda :
          (fuel : ℕ) (name : Text) (s : Estado F)
          → ((s' : Estado F)
              → length s'.claves_bloqueadas_por_esis < fuel
              → Nucleo commons s'
              → Sigue commons
                  (sin_las_de name s'.claves_bloqueadas_por_esis)
                  s'
                  (release_keys fl commons fuel name s'))
          → length s.claves_bloqueadas_por_esis < suc fuel
          → Nucleo commons s
          → (o : Option ClavePorEsi)
          → find_first (is_of_esi fl commons name) s.claves_bloqueadas_por_esis ≡ o
          → Sigue commons
              (sin_las_de name s.claves_bloqueadas_por_esis)
              s
              (release_keys fl commons (suc fuel) name s)
      unfolding ronda sin is_of_esi
      una_ronda fuel name s resto h w none e =
          Sigue-igual commons fl _ s _ _ (release_keys-ronda fuel name s none e) (
            subst (λ c. Sigue commons c s (done s))
              (sym (keep-none (is_of_esi fl commons name) s.claves_bloqueadas_por_esis e))
              (sin_cambio commons fl s w))
      una_ronda fuel name s resto h w (some i) e =
          let de : ClavePorEsi → Bool = is_of_esi fl commons name in
          let r = unlock_esi-Sigue commons fl i.key (sin name s) (quitar-Nucleo commons s de w) (
            All-find_first (EsRegistrada commons s.lista_bloqueados) de s.claves_bloqueadas_por_esis
              i w.llaves.registradas e) in
          let menos = length-remove_first de s.claves_bloqueadas_por_esis i e in
          let r' =
            resto r.estado (omega (arith, menos, h, ap (λ c. length c) r.claves_eq)) r.nucleo in
          Sigue-igual commons fl _ s _ _ (release_keys-ronda fuel name s (some i) e) (
            Sigue-luego _ _ s r.estado _ (λ s'. release_keys fl commons fuel name s') r.quedan
              r.conserva r.enviados r.hay r.resultado r'
              (ap (sin_las_de name) r.claves_eq
                ∙ keep-remove_first de s.claves_bloqueadas_por_esis))

      -- With fuel for one round more than there are keys the loop ends, gives back all keys of the ESI
      -- and no other, loses no ready ESI, and does not touch hay_esis.
      pub release_keys-Sigue :
          (fuel : ℕ) (name : Text) (s : Estado F)
          → length s.claves_bloqueadas_por_esis < fuel
          → Nucleo commons s
          → Sigue commons
              (sin_las_de name s.claves_bloqueadas_por_esis)
              s
              (release_keys fl commons fuel name s)
      release_keys-Sigue zero name s h w = absurd (omega (arith, h))
      release_keys-Sigue (suc fuel) name s h w =
          una_ronda fuel name s (λ s' h' w'. release_keys-Sigue fuel name s' h' w') h w
            (find_first (is_of_esi fl commons name) s.claves_bloqueadas_por_esis) refl

      release_keys_and_unlock_esis-load :
          (p : ℕ) (s : Estado F) (e : Esi F)
          → load s p ≡ done e
          → release_keys_and_unlock_esis fl commons p s
            ≡ release_keys fl commons (suc (length s.claves_bloqueadas_por_esis)) e.name s
      unfolding release_keys_and_unlock_esis
      release_keys_and_unlock_esis-load p s e l = rw l

      terminado : ℕ → Estado F → Estado F
      terminado p s = record s { finished_esis = s.finished_esis ++ p ∷ [] }

      sin_abort : Estado F → Outcome (Estado F)
      sin_abort s = done (record s { abort_esi = false })

      finish_esi-sigue :
          (p : ℕ) (s : Estado F)
          → s.block ≡ false
          → s.abort_esi ≡ false
          → finish_esi fl commons p s
            ≡ (release_keys_and_unlock_esis fl commons p (terminado p s) >>= λ s'. sin_abort s')
      unfolding finish_esi terminado sin_abort
      finish_esi-sigue p s b a =
          ap
            (λ c.
              if c
              then done s
              else ((if s.abort_esi
                    then done (terminado p s)
                    else release_keys_and_unlock_esis fl commons p (terminado p s))
                  >>= λ s'. sin_abort s'))
            b
          ∙ ap
              (λ c.
                (if c
                  then done (terminado p s)
                  else release_keys_and_unlock_esis fl commons p (terminado p s))
                >>= λ s'. sin_abort s')
              a

      -- An ESI that ends with neither `block` nor `abort_esi` set: finish_esi returns, takes out all
      -- entries with the name of the ESI and no other, keeps the invariant of the keys and the pointers,
      -- sends nothing and does not post hay_esis; who was ready still is, and each ESI runs, is ready or
      -- waits for a key as often as before.
      pub finish_esi-Sigue :
          (p : ℕ) (s : Estado F) (e : Esi F)
          → load s p ≡ done e
          → s.block ≡ false
          → s.abort_esi ≡ false
          → Nucleo commons s
          → Sigue commons
              (sin_las_de e.name s.claves_bloqueadas_por_esis)
              s
              (finish_esi fl commons p s)
      unfolding terminado load sin_abort
      finish_esi-Sigue p s e l b a w =
          let s1 = terminado p s in
          let w1 : Nucleo commons s1 = record {
            llaves = w.llaves;
            punteros = w.punteros;
            nadie = w.nadie;
          } in
          let r =
            release_keys-Sigue (suc (length s.claves_bloqueadas_por_esis)) e.name s1 (omega arith)
              w1 in
          record {
            estado = record r.estado { abort_esi = false };
            resultado =
                finish_esi-sigue p s b a
                ∙ ap (λ m. m >>= λ s'. sin_abort s')
                    (release_keys_and_unlock_esis-load p s1 e l ∙ r.resultado);
            nucleo = record {
              llaves = r.nucleo.llaves;
              punteros = r.nucleo.punteros;
              nadie = r.nucleo.nadie;
            };
            quedan = r.quedan;
            conserva = r.conserva;
            enviados = r.enviados;
            hay = r.hay;
            claves_eq = r.claves_eq;
          }
