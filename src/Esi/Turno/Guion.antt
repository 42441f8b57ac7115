-- ===== src/Esi/Turno/Guion.antt =====
-- Scripts of lines with an operation each, and what the ESI is meant to send for them.
pub mod Corrida
use tp_re_distinto_so.Base.{
  ℕ, zero, suc, ◌≡◌, refl, sym, ◌∙◌, ap, subst, Bool, true, false, not, ◌||◌, List, [], ◌∷◌, ◌++◌,
  Option, none, some, Text, if◌then◌else◌, ◌==◌, arith, append_assoc, append-nil, All,
}
use tp_re_distinto_so.Esi.Estado.{
  Operacion, no_valida, otra, get, store, set, Header, Lado, scheduler, coordinator, Mensaje,
  Estado, Salida, seguir, salir, Respuesta, falla, desconectado, llega, luego, saltar_blancos,
  mensaje, send_message, avisar_y_salir, abandonar, parse_line, getline, Linea, hasta_linea,
}
use tp_re_distinto_so.Esi.Turno.{
  Ronda, operacion_hecha, contestada, recibir, enviar_por, send_parsed_operation, turno, main_loop,
}

-- A line of the script without its newline, and how often the coordinator blocks it.
pub record Tarea : Type 0 where
  pub inicio : ℕ
  pub demas : List ℕ
  pub bloqueos : ℕ

abbrev pub siempre : Lado → Bool
siempre l = true

abbrev pub cabecera : ℕ → Header
cabecera id = record { id = id; len = 0; len2 = 0 }

-- A round that the scheduler starts, with the answer of the coordinator.
abbrev pub ronda : ℕ → Ronda
ronda id = record { aviso = cabecera 21; respuesta = llega (cabecera id) }

abbrev pub pedible : Operacion → Bool
pedible no_valida = false
pedible otra = false
pedible (get k) = true
pedible (store k) = true
pedible (set k v) = true

-- What is sent for an operation, at first; another keyword is reported to the scheduler at once.
unfoldable pub pedido : Operacion → Mensaje
unfolding mensaje
pedido no_valida = mensaje coordinator 25 [] []
pedido otra = mensaje scheduler 24 [] []
pedido (get k) = mensaje coordinator 21 k []
pedido (set k v) = mensaje coordinator 22 k v
pedido (store k) = mensaje coordinator 23 k []

unfoldable pub linea : Tarea → List ℕ
linea t = t.inicio ∷ t.demas ++ 10 ∷ []

unfoldable pub guion : List Tarea → List ℕ
guion [] = []
guion (t ∷ ts) = t.inicio ∷ t.demas ++ 10 ∷ guion ts

-- The rounds of a line: blocked n times, then granted.
pub rondas_de : ℕ → List Ronda → List Ronda
rondas_de zero rs = ronda 23 ∷ rs
rondas_de (suc n) rs = ronda 22 ∷ rondas_de n rs

pub rondas : List Tarea → List Ronda
unfolding rondas_de
rondas [] = []
rondas (t ∷ ts) = rondas_de t.bloqueos (rondas ts)

-- The messages of the blocked attempts.
pub bloqueos : ℕ → Operacion → List Mensaje
bloqueos zero op = []
bloqueos (suc n) op = pedido op ∷ mensaje scheduler 23 [] [] ∷ bloqueos n op

-- After the last line the report is 24.
pub fin : List Tarea → ℕ
fin [] = 24
fin (t ∷ ts) = 22

module _ (parse : List ℕ → Operacion) where
  -- Every operation is asked for until it is granted, in the order of the script.
  pub esperados : List Tarea → List Mensaje
  unfolding bloqueos fin linea
  esperados [] = []
  esperados (t ∷ ts) =
      bloqueos t.bloqueos (parse (linea t))
      ++ pedido (parse (linea t)) ∷ mensaje scheduler (fin ts) [] [] ∷ esperados ts

  -- The line has no newline in it, does not begin with a blank, and is a GET, SET or STORE.
  unfoldable pub EsTarea : Tarea → Type 0
  unfolding linea
  EsTarea t =
      ((t.inicio == 10) ≡ false)
      × ((t.inicio == 32) ≡ false)
      × All (λ c. (c == 10) ≡ false) t.demas
      × (pedible (parse (linea t)) ≡ true)

-- The process ends with success and has sent `es`.
abbrev pub Logra : List Mensaje → Salida → Type 0
Logra es o = (u : Estado) × (o ≡ salir true u) × (u.enviados ≡ es)

hasta_linea-guion :
    (cs resto : List ℕ)
    → All (λ c. (c == 10) ≡ false) cs
    → hasta_linea (cs ++ 10 ∷ resto) ≡ record { texto = cs ++ 10 ∷ []; resto = resto }
unfolding hasta_linea
hasta_linea-guion [] resto h = refl
hasta_linea-guion (c ∷ cs) resto h = rw (h.0, hasta_linea-guion cs resto h.1) refl

pub getline-guion :
    (t : Tarea) (resto : List ℕ)
    → (t.inicio == 10) ≡ false
    → All (λ c. (c == 10) ≡ false) t.demas
    → getline (t.inicio ∷ t.demas ++ 10 ∷ resto) ≡ some (record { texto = linea t; resto = resto })
unfolding getline linea
getline-guion t resto e h = ap some (hasta_linea-guion (t.inicio ∷ t.demas) resto (e, h))

pub saltar-guion :
    (parse : List ℕ → Operacion) (ts : List Tarea)
    → All (EsTarea parse) ts
    → saltar_blancos (guion ts) ≡ guion ts
unfolding saltar_blancos guion EsTarea
saltar-guion parse [] h = refl
saltar-guion parse (t ∷ ts) h = rw (h.0.0, h.0.1) refl
