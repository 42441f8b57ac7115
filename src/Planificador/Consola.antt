-- ===== src/Planificador/Consola.antt =====
-- Consola.c: the commands of the console.
pub mod Comandos
pub mod Listado
use tp_re_distinto_so.Base.{
  true, leb, ℕ, zero, suc, ◌+◌, ◌-◌, Bool, false, List, [], ◌∷◌, ◌++◌, Option, none, some, Text,
  codes, str_eq, Commons, Outcome, done, fault, waits, ◌>>=◌, if◌then◌else◌, ◌==◌, find_first,
  remove_first, update_first, length,
}
use tp_re_distinto_so.Planificador.Estado.{Floats, Estado, consola, load, load_un_esi}
use tp_re_distinto_so.Planificador.Claves.{tiene_key, find_by_key, is_key_taken, reservar, encolar}
use tp_re_distinto_so.Planificador.Desbloqueo.{desencolar, reincorporar}

-- _Commands
pub data Commands : Type 0 where
  exit pause resume block unlock list kill status deadlock help error : Commands

-- The words of consoleReadArg: the bytes up to the next space, and what follows them. The index into
-- the line is the rest of the line here.
unfoldable pub saltar_espacios : List ℕ → List ℕ
saltar_espacios [] = []
saltar_espacios (c ∷ cs) = if c == b' ' then saltar_espacios cs else c ∷ cs

unfoldable pub hasta_espacio : List ℕ → Text × List ℕ
hasta_espacio [] = ([], [])
hasta_espacio (c ∷ cs) =
    let (palabra, resto) = hasta_espacio cs in
    if c == b' ' then ([], c ∷ cs) else (c ∷ palabra, resto)

unfoldable pub console_read_arg : List ℕ → Text × List ℕ
console_read_arg source = hasta_espacio (saltar_espacios source)

unfoldable pub null_argument : Text → Bool
null_argument arg_console = str_eq arg_console []

-- The loop of list_blocked_esis takes each ESI from the queue and puts it back, and prints its name.
unfoldable pub rotar : ℕ → List ℕ → List ℕ
rotar zero cola = cola
rotar (suc n) [] = []
rotar (suc n) (p ∷ ps) = rotar n (ps ++ p ∷ [])

module _ (commons : Commons) where
  open commons use {equals_ignore_case}

  unfoldable pub to_enum : Text → Commands
  to_enum source =
      if equals_ignore_case source (codes "EXIT")
      then exit
      else (if equals_ignore_case source (codes "PAUSE")
          then pause
          else (if equals_ignore_case source (codes "RESUME")
              then resume
              else (if equals_ignore_case source (codes "BLOCK")
                  then block
                  else (if equals_ignore_case source (codes "UNLOCK")
                      then unlock
                      else (if equals_ignore_case source (codes "LIST")
                          then list
                          else (if equals_ignore_case source (codes "KILL")
                              then kill
                              else (if equals_ignore_case source (codes "STATUS")
                                  then status
                                  else (if equals_ignore_case source (codes "DEADLOCK")
                                      then deadlock
                                      else (if equals_ignore_case source (codes "HELP")
                                          then help
                                          else error)))))))))

  module _ {F : Type 0} where
    unfoldable pub is_this_one : Estado F → Text → ℕ → Bool
    is_this_one s id p = elim (load s p) [ done e ↦ equals_ignore_case e.name id | _ ↦ false ]

    unfoldable pub find_by_id : Estado F → List ℕ → Text → Option ℕ
    unfolding is_this_one
    find_by_id s lista id = find_first (is_this_one s id) lista

    -- The ESI to block: the one of that name in lista_ready, which leaves it, or the running one.
    unfoldable pub encolar_bloqueado : Text → Option ℕ → Estado F → Outcome (Estado F)
    encolar_bloqueado key (some p) s =
        done (record s { lista_bloqueados = encolar commons key p s.lista_bloqueados })
    encolar_bloqueado key none s = elim s.un_esi [
      | none ↦ fault
      | some u ↦ done (record s { lista_bloqueados = encolar commons key u s.lista_bloqueados })
    ]

    -- `list_add(lista_bloqueados, un_key)` at the end: the key is in the list once more. It is the same
    -- object; the searches give the first of the two.
    unfoldable pub repetir_key : Text → Estado F → Estado F
    repetir_key key s = elim (find_by_key commons s.lista_bloqueados key) [
      | none ↦ s
      | some k ↦ record s { lista_bloqueados = s.lista_bloqueados ++ k ∷ [] }
    ]

    -- The command begins with sem_wait(&esi_executing). The second result says whether pause_mutex is
    -- unlocked at the end: not where the key is new. There the id goes to a buffer as long as the name of
    -- the running ESI.
    unfoldable pub block_key_by_console : Text → Text → Estado F → Outcome (Estado F × Bool)
    block_key_by_console key id s0 = if s0.esi_executing == 0 then waits else (do
      un_esi ← load_un_esi s0
      let otro_esi = find_by_id s0 s0.lista_ready id
      let s : Estado F = record s0 {
        esi_executing = s0.esi_executing - 1;
        lista_ready = remove_first (is_this_one s0 id) s0.lista_ready;
      }
      elim (find_by_key commons s.lista_bloqueados key) [
        | none ↦
            let s' : Estado F = record s {
              lista_bloqueados =
                  s.lista_bloqueados ++ (record { cola_esis_bloqueados = []; key = key }) ∷ [];
            } in
            if leb (length id) (length un_esi.name)
            then done (reservar commons id key s', false)
            else fault
        | some un_key ↦ do s' ← encolar_bloqueado key otro_esi s; done (repetir_key key s', true)
      ])

    unfoldable pub nombres : Estado F → ℕ → List ℕ → Outcome (List Text)
    nombres s zero cola = done []
    nombres s (suc n) [] = fault
    nombres s (suc n) (p ∷ ps) = do
      otro ← load s p
      rest ← nombres s n (ps ++ p ∷ [])
      done (otro.name ∷ rest)

    -- The new state and the names that are printed.
    unfoldable pub list_blocked_esis : Text → Estado F → Outcome (Estado F × List Text)
    list_blocked_esis resource s = elim (find_by_key commons s.lista_bloqueados resource) [
      | none ↦ done (s, [])
      | some a_key ↦ do
        let cola = a_key.cola_esis_bloqueados
        ns ← nombres s (length cola) cola
        done (
          record s {
            lista_bloqueados =
                update_first (tiene_key commons resource)
                  (λ k. record k { cola_esis_bloqueados = rotar (length cola) cola })
                  s.lista_bloqueados;
          },
          ns,
        )
    ]

    -- After a CONSOLA at the front, the next of the queue is freed; CONSOLA itself is not.
    unfoldable pub quitar_consola : Text → Estado F → List ℕ → Outcome (Option ℕ × Estado F)
    unfolding desencolar
    quitar_consola key s [] = done (none, s)
    quitar_consola key s (p ∷ ps) = do
      otro ← load s p
      let s1 : Estado F = record s { lista_bloqueados = desencolar commons key s.lista_bloqueados }
      if equals_ignore_case otro.name consola
          then elim ps [
            | [] ↦ done (none, s1)
            | q ∷ qs ↦ done (
              some q,
              record s1 { lista_bloqueados = desencolar commons key s1.lista_bloqueados },
            )
          ]
          else done (some p, s1)

    -- lista_ready is not sorted here.
    unfoldable pub unlock_key_by_console : Floats F → Text → Estado F → Outcome (Estado F)
    unlock_key_by_console fl key s = elim (find_by_key commons s.lista_bloqueados key) [
      | none ↦ done s
      | some a_key ↦ do
        let s0 : Estado F = record s {
          claves_bloqueadas_por_esis =
              remove_first (is_key_taken commons key) s.claves_bloqueadas_por_esis;
        }
        (liberado, s1) ← quitar_consola key s0 a_key.cola_esis_bloqueados
        elim liberado [
          | none ↦ done s1
          | some p ↦ do s2 ← reincorporar fl p s1; done (record s2 { hay_esis = s2.hay_esis + 1 })
        ]
    ]
