-- ===== src/Esi/Estado.antt =====
-- ESI.h and the global variables of ESI.c; send_message, parse_line and the characters of the script.
use tp_re_distinto_so.Base.{
  ℕ, Bool, false, ◌||◌, List, [], ◌∷◌, ◌++◌, Option, none, some, Text, if◌then◌else◌, ◌==◌, ltb,
  length,
}

-- The part of t_esi_operacion, which the parser library declares, that is read: a line is not valid, or
-- it has a keyword with its arguments. `otra` is a keyword without a case here.
pub data Operacion : Type 0 where
  no_valida otra : Operacion
  get store : Text → Operacion
  set : Text → Text → Operacion

-- content_header
pub record Header : Type 0 where
  pub id : ℕ
  pub len : ℕ
  pub len2 : ℕ

-- scheduler_socket and coordinator_socket
pub data Lado : Type 0 where
  scheduler coordinator : Lado

-- A header that is sent, with what follows it.
pub record Mensaje : Type 0 where
  pub lado : Lado
  pub header : Header
  pub payload : List ℕ

-- The global variables. `script` is what is left to read of the file.
pub record Estado : Type 0 where
  pub script : List ℕ
  pub parsed : Operacion
  pub flag_blocked : Bool
  pub enviados : List Mensaje

-- The process goes on, or ends with success or failure.
pub data Salida : Type 0 where
  seguir : Estado → Salida
  salir : Bool → Estado → Salida

-- What recv gives: -1, 0, or a header.
pub data Respuesta : Type 0 where
  falla desconectado : Respuesta
  llega : Header → Respuesta

-- A statement, and what comes after it if the process still runs.
abbrev pub luego : Salida → (Estado → Salida) → Salida
luego (seguir s) f = f s
luego (salir exito s) f = salir exito s

-- getline: the line with its newline, and what is left.
pub record Linea : Type 0 where
  pub texto : List ℕ
  pub resto : List ℕ

unfoldable pub hasta_linea : List ℕ → Linea
hasta_linea [] = record { texto = []; resto = [] }
hasta_linea (c ∷ cs) =
    let l = hasta_linea cs in
    if c == 10
    then record { texto = c ∷ []; resto = cs }
    else record { texto = c ∷ l.texto; resto = l.resto }

unfoldable pub getline : List ℕ → Option Linea
unfolding hasta_linea
getline [] = none
getline (c ∷ cs) = some (hasta_linea (c ∷ cs))

-- The loop of fgetc that passes over newlines and spaces, with ungetc.
unfoldable pub saltar_blancos : List ℕ → List ℕ
saltar_blancos [] = []
saltar_blancos (c ∷ cs) = if (c == 10) || (c == 32) then saltar_blancos cs else c ∷ cs

-- What send_message sends: the payload only if the first text is not empty.
unfoldable pub mensaje : Lado → ℕ → Text → Text → Mensaje
mensaje lado id message1 message2 = record {
  lado = lado;
  header = record { id = id; len = length message1; len2 = length message2 };
  payload = if ltb 0 (length message1) then message1 ++ message2 else [];
}

-- `anda` says of each socket whether send succeeds on it; if not the process ends.
module _ (anda : Lado → Bool) where
  unfoldable pub send_message : Lado → ℕ → Text → Text → Estado → Salida
  unfolding mensaje
  send_message lado id message1 message2 s =
      if anda lado
      then seguir (record s { enviados = s.enviados ++ mensaje lado id message1 message2 ∷ [] })
      else salir false s

  -- send_message to the scheduler, and exit_with_error
  unfoldable pub avisar_y_salir : ℕ → Estado → Salida
  unfolding send_message
  avisar_y_salir id s = luego (send_message scheduler id [] [] s) (λ t. salir false t)

  -- The coordinator is told first, and what it answers is not looked at.
  unfoldable pub abandonar : Estado → Salida
  unfolding send_message avisar_y_salir
  abandonar s = luego (send_message coordinator 25 [] [] s) (λ t. avisar_y_salir 25 t)

  -- `parse` is the function of the parser library.
  unfoldable pub parse_line : (List ℕ → Operacion) → Estado → Salida
  unfolding abandonar
  parse_line parse s = elim (getline s.script) [
    | none ↦ abandonar s
    | some l ↦ seguir (record s { script = l.resto; parsed = parse l.texto })
  ]
