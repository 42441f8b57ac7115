-- ===== src/Coordinador/Protocolo/Ajena.antt =====
-- A SET or a STORE of a key that the ESI did not get.
use tp_re_distinto_so.Base.{
  ℕ, ◌+◌, ◌≡◌, refl, sym, ◌∙◌, subst, Bool, true, false, List, [], ◌∷◌, ◌++◌, Option, done,
  if◌then◌else◌, ◌==◌, arith, ◌⊎◌, inl, inr, waits, Outcome,
}
use tp_re_distinto_so.Coordinador.Estado.{
  set, store, Header, header, Estado, Red, send_header, enviar,
}
use tp_re_distinto_so.Coordinador.Claves.{Dictionary}
use tp_re_distinto_so.Coordinador.Mensajes.{abort_esi}
use tp_re_distinto_so.Coordinador.Hilos.{consulta_de, turno_scheduler}
use tp_re_distinto_so.Coordinador.Operaciones.{
  abortado, Hilo, Punto, texto_de, valor_de, pedir, abortar, pedir_propia, empezar_get, empezar_set,
  empezar_store, process_message_header_esi,
}

si_cierto : (b : Bool) (q r : Punto) → b ≡ true → (if b then q else r) ≡ q
si_cierto b q r e = rw e refl

si_falso : (b : Bool) (q r : Punto) → b ≡ false → (if b then q else r) ≡ r
si_falso b q r e = rw e refl

abbrev id_solo : ℕ → Header
id_solo id = record { id = id; len = 0; len2 = 0 }

-- What is sent: 24 to the ESI and then 34 to the scheduler; the instances and the semaphore are as
-- before.
pub record Rechazada (red : Red) (fuel consola : ℕ) (r : Option Header) (t : Hilo) (s : Estado)
    (q : Punto) : Type 0 where
  pub fase : q.hilo.fase ≡ abortado
  pub despues : Estado
  pub avisado : turno_scheduler red fuel consola r q.estado ≡ done despues
  pub instances : despues.instances ≡ s.instances
  pub esi_operation : despues.esi_operation ≡ s.esi_operation
  pub enviados :
      despues.enviados
      ≡ (s.enviados ++ header t.socket (id_solo 24) ∷ []) ++ header consola (id_solo 34) ∷ []

module _ (red : Red) (fuel consola : ℕ) (r : Option Header) where
  tras_if : (b : Bool) (o : Outcome Estado) → b ≡ false → (if b then waits else o) ≡ o
  tras_if b o e = rw e refl

  abortar-Rechazada :
      (t : Hilo) (s : Estado) (k v : List ℕ)
      → Rechazada red fuel consola r t s (abortar 1 t (record s { key = k; value = v }))
  unfolding abortar abort_esi send_header enviar turno_scheduler consulta_de
  abortar-Rechazada t s k v = record {
    fase = refl;
    despues = _;
    avisado = tras_if (s.esi_operation + 1 == 0) _ (ground arith);
    instances = refl;
    esi_operation = omega arith;
    enviados = refl;
  }

  module _ (dic : Dictionary) where
    -- A SET or STORE of a key that the ESI did not get, or has given back, is answered with 24, the ESI is
    -- aborted, the scheduler is told with 34 at its next turn, and no instance changes.
    pub process_message_header_esi-Rechazada :
        (h : Header) (carga : List ℕ) (t : Hilo) (s : Estado)
        → (h.id ≡ 22) ⊎ (h.id ≡ 23)
        → dic.has_key t.blocked_keys (texto_de h carga) ≡ false
        → Rechazada red fuel consola r t s (process_message_header_esi dic h carga t s)
    unfolding process_message_header_esi empezar_set empezar_store pedir_propia
    process_message_header_esi-Rechazada h carga t s (inl e) k =
        let key = texto_de h carga in
        let value = valor_de s.max_storage_size h carga in
        let u : Estado = record s { key = key; value = value } in
        let q : Punto = if h.id == 25 then abortar 1 t s else record { hilo = t; estado = s } in
        let q' : Punto = if h.id == 23 then empezar_store dic h carga t s else q in
        let q'' : Punto = if h.id == 22 then empezar_set dic h carga t s else q' in
        subst (Rechazada red fuel consola r t s)
          (sym (
            si_falso (h.id == 21) (empezar_get h carga t s) q'' (ground (arith, e))
            ∙ si_cierto (h.id == 22) (empezar_set dic h carga t s) q' (ground (arith, e))
            ∙ si_falso (dic.has_key t.blocked_keys key) (pedir set t u) (abortar 1 t u) k))
          (abortar-Rechazada t s key value)
    process_message_header_esi-Rechazada h carga t s (inr e) k =
        let key = texto_de h carga in
        let u : Estado = record s { key = key } in
        let q : Punto = if h.id == 25 then abortar 1 t s else record { hilo = t; estado = s } in
        let q' : Punto = if h.id == 23 then empezar_store dic h carga t s else q in
        let q'' : Punto = if h.id == 22 then empezar_set dic h carga t s else q' in
        subst (Rechazada red fuel consola r t s)
          (sym (
            si_falso (h.id == 21) (empezar_get h carga t s) q'' (ground (arith, e))
            ∙ si_falso (h.id == 22) (empezar_set dic h carga t s) q' (ground (arith, e))
            ∙ si_cierto (h.id == 23) (empezar_store dic h carga t s) q (ground (arith, e))
            ∙ si_falso (dic.has_key t.blocked_keys key) (pedir store t u) (abortar 1 t u) k))
          (abortar-Rechazada t s key s.value)
