-- ===== src/Pruebas/DeCoordinador.antt =====
-- The properties of the Coordinador at a concrete list of instances.
use tp_re_distinto_so.Base.{
  ℕ, ◌-◌, ◌≤◌, ◌<◌, ◌≡◌, refl, Bool, true, false, [], ◌∷◌, none, some, Text, codes, done, length,
  drop, All, arith, inr, update_first,
}
use tp_re_distinto_so.Coordinador.Estado.{ke, Operation, esi_client, Instance, Estado}
use tp_re_distinto_so.Coordinador.Letras.{cant_activas, choose_by_letter}
use tp_re_distinto_so.Coordinador.Letras.Cobertura.{SinLetras, Cubre}
use tp_re_distinto_so.Coordinador.Instancias.{
  Alta, add_instance_to_list, disconnect_instance_in_list, name_is_equal, socket_is_equal,
  tiene_socket, caida,
}
use tp_re_distinto_so.Coordinador.Instancias.Altas.{
  add_instance_to_list-Cubre, disconnect_instance_in_list-Cubre,
}
use tp_re_distinto_so.Coordinador.Instancias.Destino.{choose_by_letter-add_instance_to_list}
use tp_re_distinto_so.Coordinador.Turno.{Eleccion, choose_by_counter}
use tp_re_distinto_so.Coordinador.Turno.Vuelta.{Elegida, choose_by_counter-Elegida}
use tp_re_distinto_so.Coordinador.Espacio.{choose_by_space}
use tp_re_distinto_so.Coordinador.Espacio.Mayor.{Mayor, choose_by_space-Mayor}
use tp_re_distinto_so.Pruebas.Orden.{insercion}
use tp_re_distinto_so.Pruebas.Entorno.{ascii}

abbrev pub instancia : Text → ℕ → Bool → ℕ → ℕ → Instance
instancia name socket is_active desde hasta = record {
  name = name;
  socket = socket;
  free_space = 999;
  is_active = is_active;
  letter_min = desde;
  letter_max = hasta;
  start = 0;
  keys = [];
}

-- One instance is down, and two have the letters.
abbrev pub red : Estado
red = record {
  algorithm = ke;
  instances =
      instancia (codes "Inst1") 5 false 0 0
      ∷ instancia (codes "Inst2") 6 true 65 77
      ∷ instancia (codes "Inst3") 7 true 78 90
      ∷ [];
  instance_pointer = 0;
  one_instance = 2;
  max_storage_size = 4;
  key = [];
  value = [];
  operation = Operation.get;
  key_is_not_blocked = false;
  result = false;
  has_value = false;
  hello_id = esi_client;
  num_esi = 1;
  esi_operation = 0;
  scheduler_response = 0;
  result_instance = 0;
  compact = 0;
  cerrados = [];
  enviados = [];
}

red-SinLetras : All SinLetras red.instances
red-SinLetras = ((λ e. refl), ((λ e. cc), ((λ e. cc), tt)))

add_instance_to_list-Cubre_example :
    (a : Alta) × (add_instance_to_list ascii (codes "Inst4") 9 red ≡ done a)
    × Cubre a.estado.instances
    × All SinLetras a.estado.instances
    × (a.nueva ≡ elim (name_is_equal ascii red.instances (codes "Inst4")) [
      | none ↦ some (length red.instances)
      | some q ↦ none
    ])
add_instance_to_list-Cubre_example =
    add_instance_to_list-Cubre ascii (codes "Inst4") 9 red refl red-SinLetras

la_segunda : socket_is_equal red.instances 6 ≡ some (instancia (codes "Inst2") 6 true 65 77)
unfolding socket_is_equal tiene_socket
la_segunda = refl

queda_una : 0 < cant_activas (update_first (tiene_socket 6) caida red.instances)
unfolding cant_activas tiene_socket caida
queda_una = omega arith

disconnect_instance_in_list-Cubre_example :
    (t : Estado) × (disconnect_instance_in_list 6 red ≡ done t)
    × Cubre t.instances
    × All SinLetras t.instances
    × (t.one_instance ≡ red.one_instance - 1)
disconnect_instance_in_list-Cubre_example =
    disconnect_instance_in_list-Cubre 6 red (instancia (codes "Inst2") 6 true 65 77) refl
      red-SinLetras la_segunda (omega arith) queda_una

hay_activas : 0 < cant_activas red.instances
unfolding cant_activas
hay_activas = omega arith

choose_by_letter-add_instance_to_list_example :
    (a : Alta) × (p : Instance) × (add_instance_to_list ascii (codes "Inst4") 9 red ≡ done a)
    × (choose_by_letter a.estado.instances (codes "nombre") ≡ some p)
    × (p.is_active ≡ true)
    × (p.letter_min ≤ 78)
    × (78 ≤ p.letter_max)
choose_by_letter-add_instance_to_list_example =
    choose_by_letter-add_instance_to_list ascii (codes "Inst4") 9 red 110 78 (codes "ombre") refl
      red-SinLetras (omega arith) (omega arith) (inr refl)

choose_by_counter-Elegida_example :
    (e : Eleccion) × (choose_by_counter false red.instances 0 ≡ done e)
    × Elegida red.instances (drop 0 red.instances) e
    × (e.instance_pointer < length red.instances)
choose_by_counter-Elegida_example = choose_by_counter-Elegida false red.instances 0 (omega arith)

choose_by_space-Mayor_example :
    Mayor insercion false red.instances 3 (choose_by_space insercion false red.instances 3)
choose_by_space-Mayor_example = choose_by_space-Mayor insercion false red.instances 3 hay_activas
