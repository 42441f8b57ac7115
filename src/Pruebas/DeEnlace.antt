-- ===== src/Pruebas/DeEnlace.antt =====
-- Messages between the processes.
use tp_re_distinto_so.Base.{
  ◌≡◌, All, false, refl, [], ◌∷◌, ◌++◌, codes, c_string, done, length, arith,
}
use tp_re_distinto_so.Esi.Estado.{Operacion, falla}
use tp_re_distinto_so.Esi.Turno.Guion.{siempre}
use tp_re_distinto_so.Esi.Turno.{enviar_por}
use tp_re_distinto_so.Esi.Turno.Informe.{estado_de}
use tp_re_distinto_so.Enlace.Envios.{al_coordinator, pedidos}
use tp_re_distinto_so.Esi
use tp_re_distinto_so.Coordinador.Operaciones.{resto_de}
use tp_re_distinto_so.Coordinador.Hilos.{cabecera_set, carga_set, caso_status, mandar}
use tp_re_distinto_so.Coordinador.Status.{terminar_status}
use tp_re_distinto_so.Instancia
use tp_re_distinto_so.Instancia.Procesar.{deserializar, procesar_header}
use tp_re_distinto_so.Instancia.Procesar.Respuestas.{cabecera}
use tp_re_distinto_so.Enlace.Pedidos.{
  recibida, comienzo, leer, sobra, process_message_header_esi-pedido,
}
use tp_re_distinto_so.Enlace.Valores.{
  a_instancia, a_coordinador, deserializar-carga_set, status-stale,
}
use tp_re_distinto_so.Pruebas.Claves.{claves}
use tp_re_distinto_so.Pruebas.Entorno.{ascii, archivos}
use tp_re_distinto_so.Pruebas.DeCoordinador.{red}
use tp_re_distinto_so.Pruebas.DeInstancia.{agujereada, presente}
use tp_re_distinto_so.Pruebas.DeProtocolo.{quieto}

abbrev set_a : Operacion
set_a = Operacion.set (codes "a") (codes "largo")

abbrev sin_envios : Esi.Estado.Estado
sin_envios = record { script = []; parsed = set_a; flag_blocked = false; enviados = [] }

-- The storage has 4 bytes: the value loses its last one.
process_message_header_esi-pedido_example :
    (al_coordinator (estado_de (enviar_por siempre set_a falla sin_envios)).enviados
      ≡ al_coordinator sin_envios.enviados ++ pedidos set_a)
    × (leer claves (pedidos set_a) quieto.hilo quieto.estado
        ≡ comienzo claves set_a quieto.hilo quieto.estado)
    × All (λ m. resto_de 4 (recibida m) m.payload ≡ sobra 4 set_a) (pedidos set_a)
process_message_header_esi-pedido_example =
    process_message_header_esi-pedido claves set_a falla sin_envios quieto.hilo quieto.estado
      ((refl, tt), omega arith, (refl, (refl, (refl, (refl, (refl, tt))))))

deserializar-carga_set_example :
    deserializar
      (a_instancia (cabecera_set (codes "a") (codes "v")))
      (carga_set (codes "a") (codes "v"))
    ≡ record { clave = codes "a"; valor = codes "v" }
deserializar-carga_set_example =
    deserializar-carga_set (codes "a") (codes "v") (refl, tt) (refl, tt)

status-stale_example :
    let r : Instancia.Estado.Header = cabecera 13 0 (length (c_string (7 ∷ 8 ∷ []))) in
    let s' = caso_status 6 (a_coordinador r) (c_string (7 ∷ 8 ∷ [])) red in
    (procesar_header ascii archivos 100 (cabecera 15 2 0) (codes "a") agujereada
      ≡ done (record agujereada {
        enviados = Instancia.Estado.header r ∷ Instancia.Estado.bytes (c_string (7 ∷ 8 ∷ [])) ∷ [];
      }))
    × (s'.key ≡ [])
    × (s'.value ≡ red.value)
    × (terminar_status 8 (codes "Inst2") s'
        ≡ mandar 8 37 5 (length red.value) (codes "Inst2" ++ red.value) s')
status-stale_example =
    status-stale ascii archivos 100 2 0 6 8 (codes "a") agujereada red (7 ∷ 8 ∷ []) (codes "Inst2")
      presente
