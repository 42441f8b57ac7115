-- ===== src/Planificador/Claves/Consulta.antt =====
-- check_key: who gets the key, and who waits.
use tp_re_distinto_so.Base.{
  ◌≡◌, refl, sym, ◌∙◌, true, false, [], ◌∷◌, ◌++◌, Text, Commons, done, length, All-append, arith,
  Option-cases, inl, inr,
}
use tp_re_distinto_so.Planificador.Estado.{Esi, ClaveBloqueada, Estado, load_un_esi, send_header}
use tp_re_distinto_so.Planificador.Claves.{find_by_key, esi_has_key, reservar, check_key}
use tp_re_distinto_so.Planificador.Claves.Listas.{owns_new}
use tp_re_distinto_so.Planificador.Claves.Validez.{EsCola, IsValid, load_un_esi-total}
use tp_re_distinto_so.Planificador.Claves.Colas.{
  es_libre-some, es_libre-none, EsRegistrada-append, Llaves-reservar, registrada_nueva,
  registrada_vieja, cola_de, es_libre,
}

module _ (commons : Commons) where
  module _ {F : Type 0} (key : Text) (s : Estado F) (v : IsValid commons s) where
    -- A key that nobody holds and nobody waits for is given to the running ESI, whether or not it was
    -- in the list: the answer is 31, the ESI holds the key, and the state is valid again.
    pub check_key-takes :
        es_libre commons s.lista_bloqueados s.claves_bloqueadas_por_esis key ≡ true
        → (t : Estado F) × (e : Esi F) × (load_un_esi s ≡ done e)
          × (check_key commons key s ≡ done t)
          × IsValid commons t
          × (esi_has_key commons t.claves_bloqueadas_por_esis e.name key ≡ true)
          × (t.enviados ≡ s.enviados ++ (record { socket = s.socket_c; id = 31 }) ∷ [])
          × (t.block ≡ false)
    unfolding check_key reservar send_header es_libre cola_de
    check_key-takes libre =
        let p = v.punteros in
        let (u, _, lu) = load_un_esi-total s p.actual p.es_actual p.actual_en in
        elim (Option-cases (find_by_key commons s.lista_bloqueados key)) [
          | inl e ↦
              let nuevo : ClaveBloqueada = record { cola_esis_bloqueados = []; key = key } in
              let lista = s.lista_bloqueados ++ nuevo ∷ [] in
              (
                send_header
                    (reservar commons u.name key
                      (record s { block = false; lista_bloqueados = lista }))
                    s.socket_c 31,
                u,
                lu,
                rw (lu, e),
                record {
                  llaves =
                      Llaves-reservar commons lista s.claves_bloqueadas_por_esis u.name key
                        (record {
                          exclusivas = v.llaves.exclusivas;
                          registradas =
                              EsRegistrada-append commons s.lista_bloqueados nuevo
                                s.claves_bloqueadas_por_esis v.llaves.registradas;
                        })
                        (es_libre-none commons s.lista_bloqueados s.claves_bloqueadas_por_esis key
                          v.llaves e).0
                        (registrada_nueva commons s.lista_bloqueados key);
                  punteros = record {
                    actual = p.actual;
                    es_actual = p.es_actual;
                    actual_en = p.actual_en;
                    ready_en = p.ready_en;
                    colas_en =
                        All-append (EsCola (length s.esis)) s.lista_bloqueados (nuevo ∷ [])
                          p.colas_en (tt, tt);
                  };
                  hay_le = v.hay_le;
                  nadie = v.nadie;
                },
                owns_new commons s.claves_bloqueadas_por_esis u.name key,
                refl,
                refl,
              )
          | inr (k, e) ↦
              let sola =
                sym (es_libre-some commons s.lista_bloqueados s.claves_bloqueadas_por_esis key k e)
                ∙ libre in
              (
                send_header (reservar commons u.name key (record s { block = false })) s.socket_c
                    31,
                u,
                lu,
                rw (lu, e, sola),
                record {
                  llaves =
                      Llaves-reservar commons s.lista_bloqueados s.claves_bloqueadas_por_esis u.name
                        key v.llaves (ground arith)
                        (registrada_vieja commons s.lista_bloqueados key k e);
                  punteros = v.punteros;
                  hay_le = v.hay_le;
                  nadie = v.nadie;
                },
                owns_new commons s.claves_bloqueadas_por_esis u.name key,
                refl,
                refl,
              )
        ]
