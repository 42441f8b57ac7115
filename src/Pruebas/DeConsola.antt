-- ===== src/Pruebas/DeConsola.antt =====
-- The commands of the console at concrete states.
use tp_re_distinto_so.Base.{ℕ, ◌↔◌, ◌≡◌, refl, true, false, [], none, some, codes, done, ◌>>=◌}
use tp_re_distinto_so.Planificador.Claves.{find_by_key}
use tp_re_distinto_so.Planificador.Consola.{Commands, to_enum, list_blocked_esis}
use tp_re_distinto_so.Planificador.Consola.Comandos.{Pantalla, mostrar_valor, con_valor}
use tp_re_distinto_so.Planificador.Consola.Comandos.Palabras.{to_enum-palabra}
use tp_re_distinto_so.Planificador.Consola.Listado.{en_orden, list_blocked_esis-same}
use tp_re_distinto_so.Coordinador.Estado.{Estado}
use tp_re_distinto_so.Coordinador.Status.{terminar_status}
use tp_re_distinto_so.Enlace.Consultas.{Muestra, terminar_status-impreso}
use tp_re_distinto_so.Pruebas.Entorno.{ascii}
use tp_re_distinto_so.Pruebas.DeCoordinador.{red}
use tp_re_distinto_so.Pruebas.DePlanificador.{en_curso}

to_enum-palabra_example :
    (to_enum ascii (codes "Unlock") ≡ Commands.unlock)
    ↔ (ascii.equals_ignore_case (codes "Unlock") (codes "UNLOCK") ≡ true)
to_enum-palabra_example =
    to_enum-palabra ascii Commands.unlock (codes "UNLOCK") (codes "Unlock") refl

list_blocked_esis-same_example :
    list_blocked_esis ascii (codes "nombre") en_curso
    ≡ elim (find_by_key ascii en_curso.lista_bloqueados (codes "nombre")) [
      | none ↦ done (en_curso, [])
      | some k ↦ (en_orden en_curso k.cola_esis_bloqueados >>= λ ns. done (en_curso, ns))
    ]
list_blocked_esis-same_example = list_blocked_esis-same ascii (codes "nombre") en_curso

abbrev con_dato : Estado
con_dato = record red { key = codes "a"; value = codes "v"; has_value = true }

abbrev pantalla : Pantalla ℕ
pantalla = record {
  estado = en_curso;
  stop = false;
  exit = false;
  pausado = false;
  preguntas = [];
  impresos = [];
}

terminar_status-impreso_example :
    Muestra 8
      (codes "I2")
      con_dato
      pantalla
      (refl, (refl, tt))
      (terminar_status 8 (codes "I2") con_dato)
      (λ r. mostrar_valor r pantalla)
      (con_valor (codes "I2") (codes "v"))
terminar_status-impreso_example =
    terminar_status-impreso 8 (codes "I2") con_dato pantalla (refl, (refl, tt)) (refl, tt)
