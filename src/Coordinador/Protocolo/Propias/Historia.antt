-- ===== src/Coordinador/Protocolo/Propias/Historia.antt =====
-- Which keys an ESI got and has not given back, by the turns that led to a point.
use tp_re_distinto_so.Base.{
  ◌-◌, ℕ, ◌≡◌, refl, sym, ◌∙◌, ap, Bool, true, false, ◌&&◌, ◌||◌, not, List, Text, waits, done,
  ◌>>=◌, if◌then◌else◌, ◌==◌, Sorting, Ensures, Ensures-done, Ensures-waits, Ensures-if,
  Ensures-mono, Ensures->>=,
}
use tp_re_distinto_so.Coordinador.Estado.{
  Operation, set, store, Header, Estado, Red, send_header, enviar,
}
use tp_re_distinto_so.Coordinador.Mensajes.{abort_esi}
use tp_re_distinto_so.Coordinador.Claves.{Dictionary, Guardado, save_on_instance}
use tp_re_distinto_so.Coordinador.Asignar.{assign_instance}
use tp_re_distinto_so.Coordinador.Operaciones.{
  Fase, desocupado, espera_scheduler, espera_instance, abortado, Hilo, Punto, wait_response,
  wait_result, pedir, abortar, contestar, esperar_instance, empezar_get, pedir_propia, empezar_set,
  empezar_store, process_message_header_esi, terminar_get, terminar_set, terminar_store,
  terminar_de, tras_guardar, seguir_store, seguir_set, seguir_get, seguir_de, turno_esi,
}
use tp_re_distinto_so.Coordinador.Protocolo.{llega, pregunta, trabaja, sigue, Alcanza, aqui, luego}
use tp_re_distinto_so.Coordinador.Protocolo.Propias.{Autoriza, Propia}

-- SET and STORE need that the ESI has the key.
abbrev pub Requiere : Operation → Bool → Type 0
Requiere Operation.get b = Unit
Requiere Operation.set b = b ≡ true
Requiere Operation.store b = b ≡ true
Requiere Operation.status b = Unit
Requiere Operation.abort b = Unit
Requiere Operation.compact b = Unit

abbrev pub Permitida : Fase → Bool → Type 0
Permitida desocupado b = Unit
Permitida abortado b = Unit
Permitida (espera_scheduler op) b = Requiere op b
Permitida (espera_instance op) b = Requiere op b

module _ (dic : Dictionary) where
  -- Whether the ESI has the key `j` when an operation on `k` ends.
  abbrev pub tras_operacion : Operation → Text → Bool → Text → Bool
  tras_operacion Operation.get k b j = dic.same k j || b
  tras_operacion Operation.set k b j = b
  tras_operacion Operation.store k b j = not (dic.same k j) && b
  tras_operacion Operation.status k b j = b
  tras_operacion Operation.abort k b j = b
  tras_operacion Operation.compact k b j = b

  -- An operation ends when its thread goes on behind the wait for the instance.
  abbrev pub tras_turno : Fase → Text → Bool → Text → Bool
  tras_turno desocupado k b j = b
  tras_turno abortado k b j = b
  tras_turno (espera_scheduler op) k b j = b
  tras_turno (espera_instance op) k b j = tras_operacion op k b j

  Requiere-Autoriza :
      (op : Operation) (ks : List Text) (k : Text) (b : Bool)
      → dic.has_key ks k ≡ b
      → Autoriza dic op ks k
      → Requiere op b
  unfolding Autoriza
  Requiere-Autoriza Operation.get ks k b e h = tt
  Requiere-Autoriza Operation.set ks k b e h = sym e ∙ h
  Requiere-Autoriza Operation.store ks k b e h = sym e ∙ h
  Requiere-Autoriza Operation.status ks k b e h = tt
  Requiere-Autoriza Operation.abort ks k b e h = tt
  Requiere-Autoriza Operation.compact ks k b e h = tt

  pub Propia-Permitida :
      (f : Fase) (ks : List Text) (k : Text) (b : Bool)
      → dic.has_key ks k ≡ b
      → Propia dic f ks k
      → Permitida f b
  unfolding Propia
  Propia-Permitida desocupado ks k b e h = tt
  Propia-Permitida abortado ks k b e h = tt
  Propia-Permitida (espera_scheduler op) ks k b e h = Requiere-Autoriza op ks k b e h
  Propia-Permitida (espera_instance op) ks k b e h = Requiere-Autoriza op ks k b e h

  module _ (ks : List Text) where
    -- The dictionary stays.
    abbrev Igual : Punto → Type 0
    Igual q = q.hilo.blocked_keys ≡ ks

    elegida : (b : Bool) (q r : Punto) → Igual q → Igual r → Igual (if b then q else r)
    elegida true q r h k = h
    elegida false q r h k = k

    mensaje-Igual :
        (h : Header) (carga : List ℕ) (t : Hilo) (s : Estado)
        → t.blocked_keys ≡ ks
        → Igual (process_message_header_esi dic h carga t s)
    unfolding process_message_header_esi empezar_get empezar_set empezar_store pedir_propia pedir
        abortar abort_esi send_header enviar
    mensaje-Igual h carga t s e = elegida (h.id == 21) _ _ e (
        elegida (h.id == 22) _ _ (elegida (dic.has_key t.blocked_keys _) _ _ e e) (
          elegida (h.id == 23) _ _ (elegida (dic.has_key t.blocked_keys _) _ _ e e)
            (elegida (h.id == 25) _ _ e e)))

    module _ (red : Red) (sorting : Sorting) (fuel : ℕ) where
      guardar-Igual :
          (op : Operation) (t : Hilo) (g : Guardado)
          → t.blocked_keys ≡ ks
          → Igual (tras_guardar dic red op t g)
      unfolding tras_guardar esperar_instance abortar abort_esi send_header enviar
      guardar-Igual op t g e = elegida g.ok _ _ e e

      seguir-Igual :
          (op : Operation) (t : Hilo) (s : Estado)
          → t.blocked_keys ≡ ks
          → Ensures Igual (seguir_de dic red sorting fuel op t s)
      unfolding seguir_de seguir_get seguir_set seguir_store contestar esperar_instance abortar
          abort_esi send_header enviar
      seguir-Igual Operation.get t s e =
          Ensures-if s.key_is_not_blocked _ _
            (λ b.
              Ensures->>= {Q = λ u. Unit {0}} (assign_instance sorting red dic fuel s) _
                (record { value = λ u d. tt }) (λ u w. Ensures-done _ e))
            (λ b. Ensures-done _ e)
      seguir-Igual Operation.set t s e =
          Ensures-if s.key_is_not_blocked _ _
            (λ b.
              Ensures->>= {Q = λ u. Unit {0}} (save_on_instance red dic s) _
                (record { value = λ u d. tt }) (λ g w. Ensures-done _ (guardar-Igual set t _ e)))
            (λ b. Ensures-done _ e)
      seguir-Igual Operation.store t s e =
          Ensures-if s.key_is_not_blocked _ _
            (λ b.
              Ensures->>= {Q = λ u. Unit {0}} (save_on_instance red dic s) _
                (record { value = λ u d. tt }) (λ g w. Ensures-done _ (guardar-Igual store t g e)))
            (λ b. Ensures-done _ e)
      seguir-Igual Operation.status t s e = Ensures-done _ e
      seguir-Igual Operation.abort t s e = Ensures-done _ e
      seguir-Igual Operation.compact t s e = Ensures-done _ e

  -- What the end of an operation does to the dictionary.
  terminar-tras :
      (op : Operation) (t : Hilo) (s : Estado) (j : Text)
      → dic.has_key (terminar_de dic op t s).hilo.blocked_keys j
        ≡ tras_operacion op s.key (dic.has_key t.blocked_keys j) j
  unfolding terminar_de terminar_get terminar_set terminar_store contestar abortar abort_esi
      send_header enviar
  terminar-tras Operation.get t s j = dic.has_key-put t.blocked_keys s.key j
  terminar-tras Operation.set t s j =
      ap (λ ks. dic.has_key ks j)
        (elegida t.blocked_keys s.result (contestar 23 t s) (abortar 2 t s) refl refl)
  terminar-tras Operation.store t s j = dic.has_key-remove t.blocked_keys s.key j
  terminar-tras Operation.status t s j = refl
  terminar-tras Operation.abort t s j = refl
  terminar-tras Operation.compact t s j = refl

  module _ (red : Red) (sorting : Sorting) (fuel : ℕ) (j : Text) where
    esi-tras :
        (f : Fase) (t : Hilo) (s : Estado)
        → Ensures
            (λ q.
              dic.has_key q.hilo.blocked_keys j
              ≡ tras_turno f s.key (dic.has_key t.blocked_keys j) j)
            (elim f [
              | desocupado ↦ waits
              | abortado ↦ waits
              | espera_scheduler op ↦
                  (wait_response s >>= λ s'. seguir_de dic red sorting fuel op t s')
              | espera_instance op ↦ do s' ← wait_result s; done (terminar_de dic op t s')
            ])
    unfolding wait_result
    esi-tras desocupado t s = Ensures-waits
    esi-tras abortado t s = Ensures-waits
    esi-tras (espera_scheduler op) t s =
        Ensures->>= {Q = λ u. Unit {0}} (wait_response s) _ (record { value = λ u d. tt })
          (λ u w.
            Ensures-mono _ (λ q e. ap (λ ks. dic.has_key ks j) e)
              (seguir-Igual t.blocked_keys red sorting fuel op t u refl))
    esi-tras (espera_instance op) t s =
        Ensures->>= {Q = λ u. u.key ≡ s.key}
          (if s.result_instance == 0
            then waits
            else done (record s { result_instance = s.result_instance - 1 }))
          _
          (Ensures-if {P = λ u. u.key ≡ s.key} (s.result_instance == 0) waits _ (λ z. Ensures-waits)
            (λ z. Ensures-done _ refl))
          (λ u w. Ensures-done _ (
            terminar-tras op t u j
            ∙ ap (λ k. tras_operacion op k (dic.has_key t.blocked_keys j) j) w))

    turno_esi-tras :
        (p q : Punto)
        → turno_esi dic red sorting fuel p.hilo p.estado ≡ done q
        → dic.has_key q.hilo.blocked_keys j
          ≡ tras_turno p.hilo.fase p.estado.key (dic.has_key p.hilo.blocked_keys j) j
    unfolding turno_esi
    turno_esi-tras p q d = (esi-tras p.hilo.fase p.hilo p.estado).value q d

module _ (sorting : Sorting) (red : Red) (dic : Dictionary) (fuel : ℕ) where
  -- Whether the ESI has the key: it had it at the start, or a GET gave it; a STORE takes it away.
  unfoldable pub poseida : {p q : Punto} → Alcanza sorting red dic fuel p q → Text → Bool
  poseida {p} aqui j = dic.has_key p.hilo.blocked_keys j
  poseida (luego a (llega h carga l e)) j = poseida a j
  poseida (luego a (pregunta socket r n e d)) j = poseida a j
  poseida (luego a (trabaja i socket previo r carga n e d)) j = poseida a j
  poseida (luego {q = r} a (sigue d)) j = tras_turno dic r.hilo.fase r.estado.key (poseida a j) j

  pub Alcanza-poseida :
      (p q : Punto) (a : Alcanza sorting red dic fuel p q) (j : Text)
      → dic.has_key q.hilo.blocked_keys j ≡ poseida a j
  unfolding poseida
  Alcanza-poseida p _ aqui j = refl
  Alcanza-poseida p q (luego {q = r} a (llega h carga l e)) j =
      ap (λ (x : Punto). dic.has_key x.hilo.blocked_keys j) e
      ∙ ap (λ ks. dic.has_key ks j)
          (mensaje-Igual dic r.hilo.blocked_keys h carga r.hilo r.estado refl)
      ∙ Alcanza-poseida p r a j
  Alcanza-poseida p q (luego {q = r} a (pregunta socket m n e d)) j =
      ap (λ (t : Hilo). dic.has_key t.blocked_keys j) e ∙ Alcanza-poseida p r a j
  Alcanza-poseida p q (luego {q = r} a (trabaja i socket previo m carga n e d)) j =
      ap (λ (t : Hilo). dic.has_key t.blocked_keys j) e ∙ Alcanza-poseida p r a j
  Alcanza-poseida p q (luego {q = r} a (sigue d)) j =
      turno_esi-tras dic red sorting fuel j r q d
      ∙ ap (λ b. tras_turno dic r.hilo.fase r.estado.key b j) (Alcanza-poseida p r a j)
