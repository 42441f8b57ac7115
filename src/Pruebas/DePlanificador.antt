-- ===== src/Pruebas/DePlanificador.antt =====
-- The properties of the Planificador at a concrete state.
use tp_re_distinto_so.Base.{
  to_lower, ℕ, ◌≡◌, refl, true, false, [], ◌∷◌, some, Text, codes, str_eq, done, arith,
}
use tp_re_distinto_so.Planificador.Estado.{sjfcd, Esi, Estado, load, load_un_esi}
use tp_re_distinto_so.Planificador.Claves.{
  tiene_key, is_key_taken, is_key_blocked, find_by_key, is_empty, check_key, esi_has_key,
}
use tp_re_distinto_so.Planificador.Claves.Validez.{IsValid}
use tp_re_distinto_so.Planificador.Claves.Colas.{cola_de, es_libre}
use tp_re_distinto_so.Planificador.Claves.Consulta.{check_key-takes}
use tp_re_distinto_so.Planificador.Desbloqueo.{reincorporar, finish_esi, unlock_key}
use tp_re_distinto_so.Planificador.Desbloqueo.Vuelta.{Nucleo, Vuelve, reincorporar-Vuelve}
use tp_re_distinto_so.Planificador.Desbloqueo.Liberacion.{Sigue}
use tp_re_distinto_so.Planificador.Desbloqueo.Termino.{sin_las_de, finish_esi-Sigue}
use tp_re_distinto_so.Planificador.Desbloqueo.Suelta.{Valida, unlock_key-Valida}
use tp_re_distinto_so.Pruebas.Orden.{insercion}
use tp_re_distinto_so.Pruebas.Entorno.{ascii, enteros, fold_eq}

abbrev pub esi : Text → ℕ → Esi ℕ
esi name n = record {
  socket = n;
  name = name;
  instructions_counter = 3;
  cpu_time_estimated = n;
  cpu_time_previous = n;
  waiting_time = 0;
}

-- ESI1 runs and holds "nombre", for which ESI2 waits; ESI3 is ready.
abbrev pub en_curso : Estado ℕ
en_curso = record {
  algorithm = sjfcd;
  initial_estimation = 5;
  alpha = 50;
  socket_c = 4;
  esis = esi (codes "ESI1") 7 ∷ esi (codes "ESI2") 8 ∷ esi (codes "ESI3") 9 ∷ [];
  un_esi = some 0;
  lista_ready = 2 ∷ [];
  lista_bloqueados = (record { cola_esis_bloqueados = 1 ∷ []; key = codes "nombre" }) ∷ [];
  claves_bloqueadas_por_esis = (record { esi_id = codes "ESI1"; key = codes "nombre" }) ∷ [];
  finished_esis = [];
  num_esi = 4;
  fin_de_esi = false;
  respuesta_ok = true;
  block = false;
  abort_esi = false;
  hay_esis = 0;
  esi_executing = 0;
  enviados = [];
}

en_curso-IsValid : IsValid ascii en_curso
unfolding tiene_key fold_eq str_eq to_lower
en_curso-IsValid = record {
  llaves = record { exclusivas = (refl, tt); registradas = (refl, tt) };
  punteros = record {
    actual = 0;
    es_actual = refl;
    actual_en = omega arith;
    ready_en = (omega arith, tt);
    colas_en = ((omega arith, tt), tt);
  };
  hay_le = omega arith;
  nadie = refl;
}

en_curso-Nucleo : Nucleo ascii en_curso
en_curso-Nucleo = record {
  llaves = en_curso-IsValid.llaves;
  punteros = en_curso-IsValid.punteros;
  nadie = refl;
}

otra_libre :
    es_libre ascii en_curso.lista_bloqueados en_curso.claves_bloqueadas_por_esis (codes "otra")
    ≡ true
unfolding es_libre cola_de find_by_key tiene_key is_empty is_key_blocked is_key_taken fold_eq str_eq
    to_lower
otra_libre = refl

check_key-takes_example :
    (t : Estado ℕ) × (e : Esi ℕ) × (load_un_esi en_curso ≡ done e)
    × (check_key ascii (codes "otra") en_curso ≡ done t)
    × IsValid ascii t
    × (esi_has_key ascii t.claves_bloqueadas_por_esis e.name (codes "otra") ≡ true)
    × (t.enviados ≡ (record { socket = 4; id = 31 }) ∷ [])
    × (t.block ≡ false)
check_key-takes_example = check_key-takes ascii (codes "otra") en_curso en_curso-IsValid otra_libre

reincorporar-Vuelve_example : Vuelve ascii 1 en_curso (reincorporar enteros 1 en_curso)
reincorporar-Vuelve_example =
    reincorporar-Vuelve ascii enteros 1 en_curso (omega arith) en_curso-Nucleo

primero : load en_curso 0 ≡ done (esi (codes "ESI1") 7)
unfolding load
primero = refl

finish_esi-Sigue_example :
    Sigue ascii
      (sin_las_de ascii enteros (codes "ESI1") en_curso.claves_bloqueadas_por_esis)
      en_curso
      (finish_esi enteros ascii 0 en_curso)
finish_esi-Sigue_example =
    finish_esi-Sigue ascii enteros 0 en_curso (esi (codes "ESI1") 7) primero refl refl
      en_curso-Nucleo

corre : load_un_esi en_curso ≡ done (esi (codes "ESI1") 7)
unfolding load_un_esi load
corre = refl

unlock_key-Valida_example :
    Valida ascii
      (esi_has_key ascii en_curso.claves_bloqueadas_por_esis (codes "ESI1") (codes "nombre"))
      (codes "nombre")
      en_curso
      (unlock_key enteros ascii insercion (codes "nombre") en_curso)
unlock_key-Valida_example =
    unlock_key-Valida ascii enteros insercion (codes "nombre") en_curso (esi (codes "ESI1") 7) corre
      en_curso-IsValid
