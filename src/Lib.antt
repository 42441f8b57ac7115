-- ===== src/Lib.antt =====
-- A verification library of the distributed key-value store re-distinto: a coordinator, a scheduler
-- (Planificador), instances that hold the keys (Instancia) and clients (ESI), which talk by messages.
--
-- The parts, and the files that model them
--   Base            Boolean tests, lists, texts, C integers and the outcomes of C code on native numbers.
--   Instancia       Instancia/src/Instancia.c and Instancia.h.
--     Estado        entrada_t, map_t, content_header, content and the global variables.
--     Tabla         consultarTabla, consultarTablaCIRC, consultarTablaLRU, buscarEspacioLibre and
--                   free_entries.
--     Memoria       getCantPaginas, guardarEnMem and get_value.
--     Claves        the list of mapped files: revisarLista, guardarEnClaves, unmap_key, store_key, and
--                   the messages to the coordinator.
--     Compactar     compactar.
--     Circ, Lru     the SET of each replacement algorithm: guardarEnTablaCIRC and guardarEnTablaLRU with
--                   the part of procesarHeader that calls them.
--     Procesar      procesarHeader, the handler of the messages of the coordinator, and dump.
--   Planificador    Planificador/src/Planificador.c, Planificador.h and Consola.c.
--     Estado        t_esi, clave_bloqueada_t, clave_bloqueada_por_esi_t and the global variables.
--     Estimacion    calculate_estimation, sort_list_by_algorithm, update_values.
--     Claves        find_by_key, is_key_blocked, esi_has_key, release_key, check_key, new_blocked_keys.
--     Desbloqueo    unlock_key, unlock_esi, release_keys_and_unlock_esis, finish_esi.
--     Ciclo         a round of main, process_message_header, wait_start and wait_question.
--     Consola       the parser of the commands, block, unlock, list and status, and the loop of Console.
--   Coordinador     Coordinador/src/Coordinador.c and Coordinador.h.
--     Estado        instance_t, content_header and the global variables.
--     Letras        assign_letters, find_by_letter, choose_by_letter: the algorithm KE.
--     Instancias    add_instance_to_list, disconnect_instance_in_list.
--     Turno         choose_by_counter: the algorithm EL.
--     Espacio       find_by_free_space, choose_by_space: the algorithm LSU.
--     Claves        find_by_key, test_connection, disconnect_socket, save_on_instance.
--     Asignar       choose_instance, simulate_assignment, assign_instance.
--     Mensajes      process_message_header, initiate_compactation, update_instance, abort_esi.
--     Hilos         a turn of host_instance and one of host_scheduler.
--     Operaciones   host_esi, process_message_header_esi, operation_get, operation_set and
--                   operation_store, each cut at its waits.
--     Status        operation_status.
--     Protocolo     the turns of the threads as a step relation, for one ESI.
--   Esi             ESI/src/ESI.c and ESI.h.
--     Estado        the global variables, send_message, parse_line.
--     Turno         send_parsed_operation and the loop of main.
--   Enlace          what one process sends against what the other one reads: ESI and coordinator,
--                   coordinator and instance, coordinator and console.
--   Pruebas         instances of the parameters, and the properties at concrete inputs.
--
-- How state and operations correspond to the code
--   The global variables of a process are one record, and each function takes it and gives it back.
--   Function names are those of the code in snake_case; a part of a function has a name for what it does.
--   The result of code that can fail is an Outcome: done with a value, fault for a read or write outside
--   its buffer, a NULL that is followed or a division by 0, exits for exit(), waits for a semaphore
--   that is 0, and spent where the fuel ran out. The messages that are sent are a list in the state.
--   A t_esi stands in several lists at once and is changed through any of them; therefore the ESIs are a
--   store, `esis`, and the lists hold indices of it.
--   A read past the end of the table is a fault, but for that of the inner while of compactar, whose result
--   does not matter: the field tras_tabla of the state says whether it can be read, and what it finds.
--   A C string is the list of its bytes before the NUL; -1 and NULL as results are `none`.
--
-- Fuel
--   release_keys takes one round more than there are keys, which is enough since each round takes one
--   key away. guardarEnTablaCIRC, guardarEnTablaLRU and the loop of dump get their fuel from outside,
--   since the first need not return. The loops of compactar count the rounds that are left. The loop
--   of assign_instance gets its fuel from outside, of which more than there are instances is enough. So
--   does the recursion of process_message_header, which need not end when an instance is gone; one step
--   is enough for a header other than 11.
--
-- Parameters, which stand for code that is not in the repository
--   Commons is string_equals_ignore_case, the equality of texts up to the case of ASCII letters. Sorting is list_sort, which keeps
--   the elements and puts one first that goes before all others. Sistema is open, lseek, write and
--   mmap. Floats is the type float with what the scheduler computes. Dictionary is the dictionary of the
--   commons library as the list of its keys, with the laws of put, remove and has_key. Red says of a
--   socket whether its other side is gone. The parser library is a function from the bytes of a line to
--   what ESI.c reads of its result, and `anda` says of each socket of an ESI whether send succeeds.
--
-- Threads of the coordinator
--   A semaphore is a number of the state, and a function that waits at one that is 0 has the outcome
--   waits. Each thread is a function for what it does between two waits; what recv gives is an argument
--   of its turn. Protocolo.Paso lets the threads that serve one ESI take turns in
--   any order; it has no answer with the id 11, which asks for a compaction, and no turn of STATUS. A turn of host_scheduler begins behind the header 99 with which the scheduler opens a
--   round; an ESI that was aborted sends nothing more, as ESI.c ends at the answer 24.
--
-- What is not modelled
--   Sockets and select, the configuration and the log, the reads of old dumps, printing; the delay of the
--   operations; several ESIs that are served at once, and a preemption of a thread between its waits.
pub mod Base
pub mod Instancia
pub mod Coordinador
pub mod Planificador
pub mod Esi
pub mod Enlace
pub mod Pruebas
