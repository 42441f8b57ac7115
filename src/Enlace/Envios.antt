-- ===== src/Enlace/Envios.antt =====
-- What send_parsed_operation of the ESI sends the coordinator for an operation.
use tp_re_distinto_so.Base.{
  ℕ, ◌≡◌, refl, sym, ◌∙◌, ap, Bool, true, false, List, [], ◌∷◌, ◌++◌, if◌then◌else◌, ◌==◌,
  append-nil,
}
use tp_re_distinto_so.Esi.Estado.{
  Operacion, no_valida, otra, get, set, store, Lado, scheduler, coordinator, Mensaje, Estado,
  Salida, Respuesta, falla, desconectado, llega, saltar_blancos, mensaje, send_message,
  avisar_y_salir, abandonar,
}
use tp_re_distinto_so.Esi.Turno.{operacion_hecha, contestada, recibir, enviar_por}
use tp_re_distinto_so.Esi.Turno.Guion.{siempre}
use tp_re_distinto_so.Esi.Turno.Informe.{estado_de}

agregar : Lado → Mensaje → List Mensaje → List Mensaje
agregar scheduler m ms = ms
agregar coordinator m ms = m ∷ ms

-- The messages to the coordinator.
pub al_coordinator : List Mensaje → List Mensaje
unfolding agregar
al_coordinator [] = []
al_coordinator (m ∷ ms) = agregar m.lado m (al_coordinator ms)

agregar-append :
    (l : Lado) (m : Mensaje) (xs ys : List Mensaje) → agregar l m (xs ++ ys) ≡ agregar l m xs ++ ys
unfolding agregar
agregar-append scheduler m xs ys = refl
agregar-append coordinator m xs ys = refl

al_coordinator-append :
    (xs ys : List Mensaje) → al_coordinator (xs ++ ys) ≡ al_coordinator xs ++ al_coordinator ys
unfolding al_coordinator
al_coordinator-append [] ys = refl
al_coordinator-append (m ∷ ms) ys =
    ap (agregar m.lado m) (al_coordinator-append ms ys)
    ∙ agregar-append m.lado m (al_coordinator ms) (al_coordinator ys)

-- A key-value operation is one message, a line that is none the message 25, another keyword nothing.
abbrev pub pedidos : Operacion → List Mensaje
pedidos no_valida = mensaje coordinator 25 [] [] ∷ []
pedidos otra = []
pedidos (get k) = mensaje coordinator 21 k [] ∷ []
pedidos (set k v) = mensaje coordinator 22 k v ∷ []
pedidos (store k) = mensaje coordinator 23 k [] ∷ []

-- The coordinator hears no more.
abbrev Calla : List Mensaje → Salida → Type 0
Calla ms o = al_coordinator (estado_de o).enviados ≡ al_coordinator ms

segun :
    (ms : List Mensaje) (b : Bool) (o o' : Salida)
    → Calla ms o
    → Calla ms o'
    → Calla ms (if b then o else o')
segun ms true o o' h k = h
segun ms false o o' h k = k

informe :
    (ms : List Mensaje) (id : ℕ)
    → al_coordinator (ms ++ mensaje scheduler id [] [] ∷ []) ≡ al_coordinator ms
unfolding mensaje al_coordinator agregar
informe ms id =
    al_coordinator-append ms (mensaje scheduler id [] [] ∷ []) ∙ append-nil (al_coordinator ms)

hecha-Calla : (cs : List ℕ) (s : Estado) → Calla s.enviados (operacion_hecha siempre cs s)
unfolding operacion_hecha send_message
hecha-Calla [] s = informe s.enviados 24
hecha-Calla (c ∷ cs) s = informe s.enviados 22

recibir-Calla : (r : Respuesta) (s : Estado) → Calla s.enviados (recibir siempre r s)
unfolding recibir contestada avisar_y_salir send_message
recibir-Calla falla s = informe s.enviados 24
recibir-Calla desconectado s = informe s.enviados 24
recibir-Calla (llega h) s =
    segun s.enviados (h.id == 23) _ _ (hecha-Calla (saltar_blancos s.script) s)
      (segun s.enviados (h.id == 22) _ _ (informe s.enviados 23) (informe s.enviados 25))

preguntado :
    (id : ℕ) (k v : List ℕ) (r : Respuesta) (s : Estado)
    → al_coordinator
        (estado_de (
          recibir siempre r
            (record s { enviados = s.enviados ++ mensaje coordinator id k v ∷ [] }))).enviados
      ≡ al_coordinator s.enviados ++ mensaje coordinator id k v ∷ []
unfolding mensaje al_coordinator agregar
preguntado id k v r s =
    recibir-Calla r _ ∙ al_coordinator-append s.enviados (mensaje coordinator id k v ∷ [])

pub enviar_por-pedidos :
    (op : Operacion) (r : Respuesta) (s : Estado)
    → al_coordinator (estado_de (enviar_por siempre op r s)).enviados
      ≡ al_coordinator s.enviados ++ pedidos op
unfolding enviar_por send_message abandonar avisar_y_salir mensaje al_coordinator agregar
enviar_por-pedidos no_valida r s =
    informe (s.enviados ++ mensaje coordinator 25 [] [] ∷ []) 25
    ∙ al_coordinator-append s.enviados (mensaje coordinator 25 [] [] ∷ [])
enviar_por-pedidos otra r s = informe s.enviados 24 ∙ sym (append-nil (al_coordinator s.enviados))
enviar_por-pedidos (get k) r s = preguntado 21 k [] r s
enviar_por-pedidos (set k v) r s = preguntado 22 k v r s
enviar_por-pedidos (store k) r s = preguntado 23 k [] r s
