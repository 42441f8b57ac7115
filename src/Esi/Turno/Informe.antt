-- ===== src/Esi/Turno/Informe.antt =====
-- What the scheduler hears of a round of the ESI.
use tp_re_distinto_so.Base.{
  ℕ, ◌≡◌, refl, sym, ◌∙◌, ap, subst, Bool, true, false, ◌||◌, List, [], ◌∷◌, ◌++◌, Option, none,
  some, Text, if◌then◌else◌, ◌==◌, append-nil,
}
use tp_re_distinto_so.Esi.Estado.{
  Operacion, no_valida, otra, get, store, set, Lado, scheduler, coordinator, Mensaje, Estado,
  Salida, seguir, salir, Respuesta, falla, desconectado, llega, luego, saltar_blancos, mensaje,
  send_message, avisar_y_salir, abandonar, parse_line, getline, Linea,
}
use tp_re_distinto_so.Esi.Turno.{
  Ronda, operacion_hecha, contestada, recibir, enviar_por, send_parsed_operation, turno,
}

-- The ids of the messages to the scheduler.
pub agregar_si : Lado → ℕ → List ℕ → List ℕ
agregar_si scheduler id ids = id ∷ ids
agregar_si coordinator id ids = ids

pub al_scheduler : List Mensaje → List ℕ
unfolding agregar_si
al_scheduler [] = []
al_scheduler (m ∷ ms) = agregar_si m.lado m.header.id (al_scheduler ms)

abbrev pub estado_de : Salida → Estado
estado_de (seguir s) = s
estado_de (salir exito s) = s

abbrev pub sigue : Salida → Bool
sigue (seguir s) = true
sigue (salir exito s) = false

-- One report goes to the scheduler, and the process goes on just after a report 22 (done) or 23 (blocked).
pub record Informa (antes : List ℕ) (o : Salida) : Type 0 where
  pub id : ℕ
  pub manda : al_scheduler (estado_de o).enviados ≡ antes ++ id ∷ []
  pub fin : sigue o ≡ ((id == 22) || (id == 23))

agregar_si-append :
    (l : Lado) (id : ℕ) (xs ys : List ℕ) → agregar_si l id (xs ++ ys) ≡ agregar_si l id xs ++ ys
unfolding agregar_si
agregar_si-append scheduler id xs ys = refl
agregar_si-append coordinator id xs ys = refl

al_scheduler-append :
    (xs ys : List Mensaje) → al_scheduler (xs ++ ys) ≡ al_scheduler xs ++ al_scheduler ys
unfolding al_scheduler
al_scheduler-append [] ys = refl
al_scheduler-append (m ∷ ms) ys =
    ap (agregar_si m.lado m.header.id) (al_scheduler-append ms ys)
    ∙ agregar_si-append m.lado m.header.id (al_scheduler ms) (al_scheduler ys)

luego-sale : (o : Salida) (f : Estado → Salida) → sigue o ≡ false → luego o f ≡ o
luego-sale (seguir s) f e = cc
luego-sale (salir exito s) f e = refl

sigue-luego :
    (o : Salida) (f : Estado → Salida)
    → ((t : Estado) → sigue (f t) ≡ false)
    → sigue (luego o f) ≡ false
sigue-luego (seguir s) f e = e s
sigue-luego (salir exito s) f e = refl

module _ (anda : Lado → Bool) (h : (l : Lado) → anda l ≡ true) where
  -- A send that succeeds goes on.
  tras_send :
      (P : Salida → Type 0) (lado : Lado) (id : ℕ) (m1 m2 : Text) (s : Estado) (f : Estado → Salida)
      → P (f (record s { enviados = s.enviados ++ mensaje lado id m1 m2 ∷ [] }))
      → P (luego (send_message anda lado id m1 m2 s) f)
  unfolding send_message
  tras_send P lado id m1 m2 s f k =
      subst
        (λ b. P (
          luego
            (if b
              then seguir (record s { enviados = s.enviados ++ mensaje lado id m1 m2 ∷ [] })
              else salir false s)
            f))
        (sym (h lado)) k

  -- A message to the coordinator is none to the scheduler.
  tras_pedir :
      (id : ℕ) (m1 m2 : Text) (antes : List ℕ) (s : Estado) (f : Estado → Salida)
      → al_scheduler s.enviados ≡ antes
      → ((t : Estado) → al_scheduler t.enviados ≡ antes → Informa antes (f t))
      → Informa antes (luego (send_message anda coordinator id m1 m2 s) f)
  unfolding mensaje al_scheduler agregar_si
  tras_pedir id m1 m2 antes s f e k = tras_send (Informa antes) coordinator id m1 m2 s f (
      k _ (
        al_scheduler-append s.enviados (mensaje coordinator id m1 m2 ∷ [])
        ∙ append-nil (al_scheduler s.enviados)
        ∙ e))

  tras_informar :
      (id : ℕ) (antes : List ℕ) (s : Estado) (f : Estado → Salida)
      → al_scheduler s.enviados ≡ antes
      → ((t : Estado) → al_scheduler t.enviados ≡ antes ++ id ∷ [] → Informa antes (f t))
      → Informa antes (luego (send_message anda scheduler id [] [] s) f)
  unfolding mensaje al_scheduler agregar_si
  tras_informar id antes s f e k = tras_send (Informa antes) scheduler id [] [] s f (
      k _ (
        al_scheduler-append s.enviados (mensaje scheduler id [] [] ∷ [])
        ∙ ap (λ l. l ++ id ∷ []) e))

  informar-Informa :
      (id : ℕ) (antes : List ℕ) (s : Estado)
      → ((id == 22) || (id == 23)) ≡ true
      → al_scheduler s.enviados ≡ antes
      → Informa antes (send_message anda scheduler id [] [] s)
  unfolding send_message mensaje al_scheduler agregar_si
  informar-Informa id antes s q e =
      subst
        (λ b. Informa antes (
          if b
          then seguir (record s { enviados = s.enviados ++ mensaje scheduler id [] [] ∷ [] })
          else salir false s))
        (sym (h scheduler))
        (record {
          id = id;
          manda =
              al_scheduler-append s.enviados (mensaje scheduler id [] [] ∷ [])
              ∙ ap (λ l. l ++ id ∷ []) e;
          fin = sym q;
        })

  salir-Informa :
      (id : ℕ) (antes : List ℕ) (s : Estado)
      → ((id == 22) || (id == 23)) ≡ false
      → al_scheduler s.enviados ≡ antes
      → Informa antes (avisar_y_salir anda id s)
  unfolding avisar_y_salir
  salir-Informa id antes s q e =
      tras_informar id antes s (λ t. salir false t) e
        (λ t k. record { id = id; manda = k; fin = sym q })

  abandonar-Informa :
      (antes : List ℕ) (s : Estado)
      → al_scheduler s.enviados ≡ antes
      → Informa antes (abandonar anda s)
  unfolding abandonar
  abandonar-Informa antes s e =
      tras_pedir 25 [] [] antes s _ e (λ t k. salir-Informa 25 antes t refl k)

  hecha-Informa :
      (cs : List ℕ) (antes : List ℕ) (s : Estado)
      → al_scheduler s.enviados ≡ antes
      → Informa antes (operacion_hecha anda cs s)
  unfolding operacion_hecha
  hecha-Informa [] antes s e =
      tras_informar 24 antes (record s { script = [] }) (λ t. salir true t) e
        (λ t k. record { id = 24; manda = k; fin = refl })
  hecha-Informa (c ∷ cs) antes s e =
      informar-Informa 22 antes (record s { script = c ∷ cs; flag_blocked = false }) refl e

  en_ambas :
      (antes : List ℕ) (b : Bool) (q r : Salida)
      → Informa antes q
      → Informa antes r
      → Informa antes (if b then q else r)
  en_ambas antes true q r x y = x
  en_ambas antes false q r x y = y

  recibir-Informa :
      (r : Respuesta) (antes : List ℕ) (s : Estado)
      → al_scheduler s.enviados ≡ antes
      → Informa antes (recibir anda r s)
  unfolding recibir contestada
  recibir-Informa falla antes s e = salir-Informa 24 antes s refl e
  recibir-Informa desconectado antes s e = salir-Informa 24 antes s refl e
  recibir-Informa (llega m) antes s e =
      en_ambas antes (m.id == 23) _ _ (hecha-Informa (saltar_blancos s.script) antes s e) (
        en_ambas antes (m.id == 22) _ _
          (informar-Informa 23 antes (record s { flag_blocked = true }) refl e)
          (salir-Informa 25 antes s refl e))

  enviar-Informa :
      (op : Operacion) (r : Respuesta) (antes : List ℕ) (s : Estado)
      → al_scheduler s.enviados ≡ antes
      → Informa antes (enviar_por anda op r s)
  unfolding enviar_por
  enviar-Informa no_valida r antes s e = abandonar-Informa antes s e
  enviar-Informa otra r antes s e = salir-Informa 24 antes s refl e
  enviar-Informa (get k) r antes s e =
      tras_pedir 21 k [] antes s (recibir anda r) e (λ t. recibir-Informa r antes t)
  enviar-Informa (set k v) r antes s e =
      tras_pedir 22 k v antes s (recibir anda r) e (λ t. recibir-Informa r antes t)
  enviar-Informa (store k) r antes s e =
      tras_pedir 23 k [] antes s (recibir anda r) e (λ t. recibir-Informa r antes t)

  abandonar-sale : (s : Estado) → sigue (abandonar anda s) ≡ false
  unfolding abandonar avisar_y_salir
  abandonar-sale s =
      sigue-luego (send_message anda coordinator 25 [] [] s) _
        (λ t. sigue-luego (send_message anda scheduler 25 [] [] t) _ (λ u. refl))

  leer-Informa :
      (parse : List ℕ → Operacion) (r : Respuesta) (o : Option Linea) (s : Estado)
      → Informa (al_scheduler s.enviados) (
          luego
            (elim o [
              | none ↦ abandonar anda s
              | some l ↦ seguir (record s { script = l.resto; parsed = parse l.texto })
            ])
            (send_parsed_operation anda r))
  unfolding send_parsed_operation
  leer-Informa parse r none s =
      subst (Informa (al_scheduler s.enviados))
        (sym (luego-sale (abandonar anda s) (send_parsed_operation anda r) (abandonar-sale s)))
        (abandonar-Informa _ s refl)
  leer-Informa parse r (some l) s =
      enviar-Informa (parse l.texto) r _ (record s { script = l.resto; parsed = parse l.texto })
        refl

  ronda-Informa :
      (parse : List ℕ → Operacion) (r : Respuesta) (b : Bool) (s : Estado)
      → Informa
          (al_scheduler s.enviados)
          (luego (if b then seguir s else parse_line anda parse s) (send_parsed_operation anda r))
  unfolding parse_line send_parsed_operation
  ronda-Informa parse r true s = enviar-Informa s.parsed r _ s refl
  ronda-Informa parse r false s = leer-Informa parse r (getline s.script) s

  -- If the sends succeed, every round of the ESI, whatever the scheduler and the coordinator send, sends
  -- the scheduler one report, and the process goes on if that is 22 or 23, and ends if it is another.
  pub turno-Informa :
      (parse : List ℕ → Operacion) (r : Ronda) (s : Estado)
      → Informa (al_scheduler s.enviados) (turno anda parse r s)
  unfolding turno
  turno-Informa parse r s =
      en_ambas _ (r.aviso.id == 21) _ _ (ronda-Informa parse r.respuesta s.flag_blocked s)
        (salir-Informa 24 _ s refl refl)
