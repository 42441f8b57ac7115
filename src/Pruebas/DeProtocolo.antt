-- ===== src/Pruebas/DeProtocolo.antt =====
-- A GET that an ESI asks for and that is answered, turn by turn.
use tp_re_distinto_so.Base.{
  ℕ, ◌≢◌, arith, ◌≡◌, refl, inl, none, false, [], ◌∷◌, some, codes, Outcome, done, fault, exits,
  waits, spent, Text, str_eq, c_string,
}
use tp_re_distinto_so.Coordinador.Estado.{
  el, Header, Estado, Red, instancia_de, post_start, enviar, send_header,
}
use tp_re_distinto_so.Coordinador.Letras.{mayuscula, primera_letra, has_letter, signed}
use tp_re_distinto_so.Coordinador.Claves.{esta_caido, test_connection, tiene_clave, find_by_key}
use tp_re_distinto_so.Coordinador.Asignar.Conserva.{total_start}
use tp_re_distinto_so.Coordinador.Asignar.Guarda.{Guarda}
use tp_re_distinto_so.Coordinador.Asignar.Guarda.Vuelve.{assign_instance-Guarda_el}
use tp_re_distinto_so.Coordinador.Asignar.Vueltas.Fin.{assign_instance-basta}
use tp_re_distinto_so.Coordinador.Asignar.{
  poner_clave, elegir_por, choose_instance, reintentar, asignar_nueva, assign_instance,
}
use tp_re_distinto_so.Coordinador.Mensajes.{process_flag, process_message_header, wait_start}
use tp_re_distinto_so.Coordinador.Hilos.{
  post_result, mandar, caso_get, caso_de, turno_instance, preguntar, consulta_de, turno_scheduler,
}
use tp_re_distinto_so.Coordinador.Operaciones.{
  desocupado, Punto, Hilo, process_message_header_esi, turno_esi, pedir, empezar_get, texto_de,
  wait_response, wait_result, seguir_get, seguir_de, esperar_instance, terminar_get, terminar_de,
  contestar,
}
use tp_re_distinto_so.Coordinador.Protocolo.{llega, pregunta, trabaja, sigue, Alcanza, aqui, luego}
use tp_re_distinto_so.Coordinador.Protocolo.Ajena.{Rechazada, process_message_header_esi-Rechazada}
use tp_re_distinto_so.Coordinador.Protocolo.Fichas.{Fichas}
use tp_re_distinto_so.Coordinador.Protocolo.Fichas.Alcance.{Alcanza-Fichas}
use tp_re_distinto_so.Coordinador.Protocolo.Propias.{Propia}
use tp_re_distinto_so.Coordinador.Protocolo.Propias.Historia.{poseida, Permitida}
use tp_re_distinto_so.Coordinador.Protocolo.Propias.Alcance.{Alcanza-Propia}
use tp_re_distinto_so.Coordinador.Protocolo.Progreso.{Adelanta, Alcanza-Adelanta}
use tp_re_distinto_so.Pruebas.Orden.{insercion}
use tp_re_distinto_so.Pruebas.Claves.{claves}
use tp_re_distinto_so.Pruebas.DeCoordinador.{red}

-- No connection is down.
abbrev sin_caidas : Red
sin_caidas = record { caido = λ socket. false }

abbrev estado_o : Estado → Outcome Estado → Estado
estado_o s (done t) = t
estado_o s fault = s
estado_o s exits = s
estado_o s waits = s
estado_o s spent = s

abbrev punto_o : Punto → Outcome Punto → Punto
punto_o p (done q) = q
punto_o p fault = p
punto_o p exits = p
punto_o p waits = p
punto_o p spent = p

abbrev id_solo : ℕ → Header
id_solo id = record { id = id; len = 0; len2 = 0 }

-- The ESI waits for nothing; it asks for "a", the scheduler grants it, the instance of its letter works,
-- and the ESI is answered.
abbrev pub quieto : Punto
quieto = record {
  hilo = record { socket = 20; name = codes "ESI01"; blocked_keys = []; fase = desocupado };
  estado = red;
}

abbrev pedido_a : Header
pedido_a = record { id = 21; len = 1; len2 = 0 }

abbrev pide : Punto
pide = process_message_header_esi claves pedido_a (codes "a") quieto.hilo quieto.estado

abbrev preguntado : Punto
preguntado = record {
  hilo = pide.hilo;
  estado = estado_o red (turno_scheduler sin_caidas 5 8 (some (id_solo 31)) pide.estado);
}

abbrev asignado : Punto
asignado =
    punto_o quieto (turno_esi claves sin_caidas insercion 5 preguntado.hilo preguntado.estado)

abbrev trabajado : Punto
trabajado = record {
  hilo = asignado.hilo;
  estado =
      estado_o red
        (turno_instance sin_caidas 5 1 6 (id_solo 12) (id_solo 12 ∷ []) [] asignado.estado);
}

abbrev respondido : Punto
respondido =
    punto_o quieto (turno_esi claves sin_caidas insercion 5 trabajado.hilo trabajado.estado)

-- Then it asks for a SET of that key.
abbrev pedido_set : Header
pedido_set = record { id = 22; len = 1; len2 = 1 }

abbrev pide_set : Punto
pide_set =
    process_message_header_esi claves pedido_set (codes "av") respondido.hilo respondido.estado

quieto-Fichas : Fichas quieto.hilo.fase quieto.estado
unfolding Fichas total_start
quieto-Fichas = (refl, refl, refl, refl)

camino : Alcanza insercion sin_caidas claves 5 quieto trabajado
unfolding process_message_header_esi turno_esi pedir empezar_get texto_de wait_response wait_result
    seguir_get seguir_de esperar_instance turno_scheduler consulta_de preguntar mandar enviar
    process_message_header process_flag assign_instance asignar_nueva choose_instance elegir_por
    reintentar poner_clave test_connection esta_caido tiene_clave find_by_key instancia_de
    post_start mayuscula primera_letra has_letter signed turno_instance wait_start caso_de caso_get
    post_result str_eq c_string
camino =
    luego
      (luego
        (luego (luego aqui (llega pedido_a (codes "a") refl refl))
          (pregunta 8 (id_solo 31) refl refl refl))
        (sigue refl))
      (trabaja 1 6 (id_solo 12) (id_solo 12) [] refl refl refl)

camino_set : Alcanza insercion sin_caidas claves 5 quieto pide_set
unfolding process_message_header_esi turno_esi pedir empezar_get texto_de wait_response wait_result
    seguir_get seguir_de esperar_instance turno_scheduler consulta_de preguntar mandar enviar
    process_message_header process_flag assign_instance asignar_nueva choose_instance elegir_por
    reintentar poner_clave test_connection esta_caido tiene_clave find_by_key instancia_de
    post_start mayuscula primera_letra has_letter signed turno_instance wait_start caso_de caso_get
    post_result str_eq c_string terminar_get terminar_de contestar send_header
camino_set = luego (luego camino (sigue refl)) (llega pedido_set (codes "av") refl refl)

quieto-Propia : Propia claves quieto.hilo.fase quieto.hilo.blocked_keys quieto.estado.key
unfolding Propia
quieto-Propia = tt

Alcanza-Fichas_example : Fichas trabajado.hilo.fase trabajado.estado
Alcanza-Fichas_example =
    Alcanza-Fichas insercion sin_caidas claves 5 quieto trabajado quieto-Fichas camino

Alcanza-Adelanta_example :
    Adelanta sin_caidas 5 (id_solo 12) refl 6 (id_solo 12) [] trabajado.hilo.fase trabajado.estado
Alcanza-Adelanta_example =
    Alcanza-Adelanta insercion sin_caidas claves 5 6 (id_solo 12) (id_solo 12) [] refl quieto
      trabajado quieto-Fichas camino

Alcanza-Propia_example :
    ((j : Text)
      → claves.has_key pide_set.hilo.blocked_keys j
        ≡ poseida insercion sin_caidas claves 5 camino_set j)
    × Permitida pide_set.hilo.fase
        (poseida insercion sin_caidas claves 5 camino_set pide_set.estado.key)
Alcanza-Propia_example =
    Alcanza-Propia insercion sin_caidas claves 5 quieto pide_set quieto-Fichas quieto-Propia
      camino_set

assign_instance-basta_example : assign_instance insercion sin_caidas claves 4 red ≢ spent
assign_instance-basta_example =
    assign_instance-basta sin_caidas insercion claves 4 red (omega arith)

abbrev red_el : Estado
red_el = record red { algorithm = el }

assign_instance-Guarda_el_example :
    (t : Estado) × (assign_instance insercion sin_caidas claves 1 red_el ≡ done t)
    × Guarda claves red_el t
assign_instance-Guarda_el_example =
    assign_instance-Guarda_el sin_caidas (λ k. refl) insercion claves 0 red_el refl (omega arith)
      (omega arith)

-- The ESI got "a" and asks for a SET of "b".
abbrev con_a : Hilo
con_a = record quieto.hilo { blocked_keys = codes "a" ∷ [] }

ajena : claves.has_key con_a.blocked_keys (texto_de pedido_set (codes "bv")) ≡ false
unfolding texto_de c_string str_eq
ajena = refl

process_message_header_esi-Rechazada_example :
    Rechazada sin_caidas 5 8 none con_a red
      (process_message_header_esi claves pedido_set (codes "bv") con_a red)
process_message_header_esi-Rechazada_example =
    process_message_header_esi-Rechazada sin_caidas 5 8 none claves pedido_set (codes "bv") con_a
      red (inl refl) ajena
