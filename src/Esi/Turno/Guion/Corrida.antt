-- ===== src/Esi/Turno/Guion/Corrida.antt =====
-- A script that is run to its end, where the coordinator blocks each operation a number of times.
use tp_re_distinto_so.Base.{
  ℕ, zero, suc, ◌≡◌, refl, sym, ◌∙◌, ap, subst, Bool, true, false, List, [], ◌∷◌, ◌++◌, Option,
  none, some, if◌then◌else◌, append_assoc, append-nil, All,
}
use tp_re_distinto_so.Esi.Estado.{
  Operacion, no_valida, otra, get, store, set, scheduler, Mensaje, Estado, Salida, seguir, salir,
  llega, luego, saltar_blancos, mensaje, send_message, abandonar, parse_line, getline, Linea,
}
use tp_re_distinto_so.Esi.Turno.{
  Ronda, operacion_hecha, contestada, recibir, enviar_por, send_parsed_operation, turno, main_loop,
}
use tp_re_distinto_so.Esi.Turno.Guion.{
  Tarea, siempre, cabecera, pedible, pedido, linea, guion, rondas_de, rondas, bloqueos, fin,
  esperados, EsTarea, Logra, getline-guion, saltar-guion,
}

enviar-bloqueada :
    (op : Operacion) (s : Estado)
    → pedible op ≡ true
    → enviar_por siempre op (llega (cabecera 22)) s
      ≡ seguir (record s {
        flag_blocked = true;
        enviados = (s.enviados ++ pedido op ∷ []) ++ mensaje scheduler 23 [] [] ∷ [];
      })
unfolding enviar_por recibir contestada send_message pedido
enviar-bloqueada no_valida s h = cc
enviar-bloqueada otra s h = cc
enviar-bloqueada (get k) s h = refl
enviar-bloqueada (set k v) s h = refl
enviar-bloqueada (store k) s h = refl

enviar-concedida :
    (op : Operacion) (s : Estado)
    → pedible op ≡ true
    → enviar_por siempre op (llega (cabecera 23)) s
      ≡ operacion_hecha siempre
          (saltar_blancos s.script)
          (record s { enviados = s.enviados ++ pedido op ∷ [] })
unfolding enviar_por recibir contestada send_message pedido
enviar-concedida no_valida s h = cc
enviar-concedida otra s h = cc
enviar-concedida (get k) s h = refl
enviar-concedida (set k v) s h = refl
enviar-concedida (store k) s h = refl

module _ (parse : List ℕ → Operacion) where
  -- The rounds of a line from its first answer on, where the operation is parsed.
  abbrev intentos : ℕ → List Ronda → Estado → Salida
  intentos zero rs s =
      luego (enviar_por siempre s.parsed (llega (cabecera 23)) s) (main_loop siempre parse rs)
  intentos (suc n) rs s =
      luego (enviar_por siempre s.parsed (llega (cabecera 22)) s)
        (main_loop siempre parse (rondas_de n rs))

  -- In a blocked ESI the rounds try the same operation again.
  otra_vez :
      (n : ℕ) (rs : List Ronda) (s : Estado)
      → s.flag_blocked ≡ true
      → main_loop siempre parse (rondas_de n rs) s ≡ intentos n rs s
  unfolding rondas_de main_loop turno send_parsed_operation
  otra_vez zero rs s h = rw h refl
  otra_vez (suc n) rs s h = rw h refl

  Logra-intentos :
      (es : List Mensaje) (n : ℕ) (rs : List Ronda) (s : Estado)
      → pedible s.parsed ≡ true
      → ((u : Estado)
          → u.script ≡ s.script
          → u.parsed ≡ s.parsed
          → u.enviados ≡ s.enviados ++ bloqueos n s.parsed
          → Logra es (intentos zero rs u))
      → Logra es (intentos n rs s)
  unfolding bloqueos
  Logra-intentos es zero rs s h k = k s refl refl (sym (append-nil s.enviados))
  Logra-intentos es (suc n) rs s h k =
      let t : Estado = record s {
        flag_blocked = true;
        enviados = (s.enviados ++ pedido s.parsed ∷ []) ++ mensaje scheduler 23 [] [] ∷ [];
      } in
      let seguido : intentos (suc n) rs s ≡ intentos n rs t =
        ap (λ o. luego o (main_loop siempre parse (rondas_de n rs))) (enviar-bloqueada s.parsed s h)
        ∙ otra_vez n rs t refl in
      subst (Logra es) (sym seguido) (
        Logra-intentos es n rs t h (λ u a b c. k u a b (
          c
          ∙ append_assoc (s.enviados ++ pedido s.parsed ∷ []) (mensaje scheduler 23 [] [] ∷ [])
              (bloqueos n s.parsed)
          ∙ append_assoc s.enviados (pedido s.parsed ∷ [])
              (mensaje scheduler 23 [] [] ∷ bloqueos n s.parsed))))

  leer_por :
      (b : Bool) (o : Option Linea) (l : Linea) (s : Estado)
      → b ≡ false
      → o ≡ some l
      → (if b then seguir s else elim o [
        | none ↦ abandonar siempre s
        | some l' ↦ seguir (record s { script = l'.resto; parsed = parse l'.texto })
      ])
        ≡ seguir (record s { script = l.resto; parsed = parse l.texto })
  leer_por b o l s h g = rw (h, g) refl

  -- The first round of a line reads it.
  primera_ronda :
      (n : ℕ) (rs : List Ronda) (l : Linea) (s : Estado)
      → s.flag_blocked ≡ false
      → getline s.script ≡ some l
      → main_loop siempre parse (rondas_de n rs) s
        ≡ intentos n rs (record s { script = l.resto; parsed = parse l.texto })
  unfolding rondas_de main_loop turno send_parsed_operation parse_line
  primera_ronda zero rs l s h g =
      ap
        (λ o.
          luego (luego o (send_parsed_operation siempre (llega (cabecera 23))))
            (main_loop siempre parse rs))
        (leer_por s.flag_blocked (getline s.script) l s h g)
  primera_ronda (suc n) rs l s h g =
      ap
        (λ o.
          luego (luego o (send_parsed_operation siempre (llega (cabecera 22))))
            (main_loop siempre parse (rondas_de n rs)))
        (leer_por s.flag_blocked (getline s.script) l s h g)

  -- The last attempt of a line is granted: the script is at its end, or goes on with the next line.
  concedida :
      (ts : List Tarea) (s : Estado)
      → All (EsTarea parse) ts
      → pedible s.parsed ≡ true
      → s.script ≡ guion ts
      → intentos zero (rondas ts) s
        ≡ luego
            (operacion_hecha siempre
              (guion ts)
              (record s { enviados = s.enviados ++ pedido s.parsed ∷ [] }))
            (main_loop siempre parse (rondas ts))
  concedida ts s h p g =
      ap (λ o. luego o (main_loop siempre parse (rondas ts)))
        (enviar-concedida s.parsed s p
          ∙ ap
              (λ cs.
                operacion_hecha siempre cs
                  (record s { enviados = s.enviados ++ pedido s.parsed ∷ [] }))
              (ap saltar_blancos g ∙ saltar-guion parse ts h))

  Logra-ultima :
      (s : Estado) (es : List Mensaje)
      → pedible s.parsed ≡ true
      → s.script ≡ guion []
      → es ≡ s.enviados ++ pedido s.parsed ∷ mensaje scheduler 24 [] [] ∷ []
      → Logra es (intentos zero (rondas []) s)
  unfolding guion operacion_hecha send_message
  Logra-ultima s es p g e = subst (Logra es) (sym (concedida [] s tt p g)) (
    _,
    refl,
    append_assoc s.enviados (pedido s.parsed ∷ []) (mensaje scheduler 24 [] [] ∷ []) ∙ sym e,
  )

  Logra-siguiente :
      (t : Tarea) (ts : List Tarea) (s : Estado) (es rs : List Mensaje)
      → All (EsTarea parse) (t ∷ ts)
      → pedible s.parsed ≡ true
      → s.script ≡ guion (t ∷ ts)
      → es ≡ s.enviados ++ pedido s.parsed ∷ mensaje scheduler 22 [] [] ∷ rs
      → ((u : Estado)
          → u.flag_blocked ≡ false
          → u.script ≡ guion (t ∷ ts)
          → Logra (u.enviados ++ rs) (main_loop siempre parse (rondas (t ∷ ts)) u))
      → Logra es (intentos zero (rondas (t ∷ ts)) s)
  unfolding guion operacion_hecha send_message
  Logra-siguiente t ts s es rs h p g e k =
      let u : Estado = record s {
        script = guion (t ∷ ts);
        flag_blocked = false;
        enviados = (s.enviados ++ pedido s.parsed ∷ []) ++ mensaje scheduler 22 [] [] ∷ [];
      } in
      let juntos : u.enviados ++ rs ≡ es =
        append_assoc (s.enviados ++ pedido s.parsed ∷ []) (mensaje scheduler 22 [] [] ∷ []) rs
        ∙ append_assoc s.enviados (pedido s.parsed ∷ []) (mensaje scheduler 22 [] [] ∷ rs)
        ∙ sym e in
      subst (Logra es) (sym (concedida (t ∷ ts) s h p g))
        (subst (λ l. Logra l (main_loop siempre parse (rondas (t ∷ ts)) u)) juntos (k u refl refl))

  -- One line, where what comes after its last attempt is given.
  Logra-linea :
      (t : Tarea) (ts : List Tarea) (s : Estado) (rs : List Mensaje)
      → EsTarea parse t
      → s.flag_blocked ≡ false
      → s.script ≡ guion (t ∷ ts)
      → ((v : Estado) (es : List Mensaje)
          → pedible v.parsed ≡ true
          → v.script ≡ guion ts
          → es ≡ v.enviados ++ pedido v.parsed ∷ rs
          → Logra es (intentos zero (rondas ts) v))
      → Logra
          (s.enviados ++ (bloqueos t.bloqueos (parse (linea t)) ++ pedido (parse (linea t)) ∷ rs))
          (main_loop siempre parse (rondas (t ∷ ts)) s)
  unfolding rondas EsTarea guion
  Logra-linea t ts s rs h f g k =
      let op = parse (linea t) in
      let l : Linea = record { texto = linea t; resto = guion ts } in
      let u : Estado = record s { script = guion ts; parsed = op } in
      let leida : getline s.script ≡ some l = ap getline g ∙ getline-guion t (guion ts) h.0 h.2 in
      let es = s.enviados ++ (bloqueos t.bloqueos op ++ pedido op ∷ rs) in
      subst (Logra es) (sym (primera_ronda t.bloqueos (rondas ts) l s f leida)) (
        Logra-intentos es t.bloqueos (rondas ts) u h.3 (λ v a b c. k v es (ap pedible b ∙ h.3) a (
          sym (append_assoc s.enviados (bloqueos t.bloqueos op) (pedido op ∷ rs))
          ∙ ap (λ x. x ++ pedido op ∷ rs) (sym c)
          ∙ ap (λ o. v.enviados ++ pedido o ∷ rs) (sym b))))

  -- A script of lines with an operation each, which the coordinator grants after it blocked them some
  -- rounds, is run to its end: the process ends with success, and sends each operation until it is
  -- granted, in the order of the script, with a report after each round.
  pub main_loop-Logra :
      (t : Tarea) (ts : List Tarea) (s : Estado)
      → All (EsTarea parse) (t ∷ ts)
      → s.flag_blocked ≡ false
      → s.script ≡ guion (t ∷ ts)
      → (u : Estado) × (main_loop siempre parse (rondas (t ∷ ts)) s ≡ salir true u)
        × (u.enviados ≡ s.enviados ++ esperados parse (t ∷ ts))
  unfolding esperados fin
  main_loop-Logra t [] s h f g =
      Logra-linea t [] s (mensaje scheduler 24 [] [] ∷ []) h.0 f g (λ v es. Logra-ultima v es)
  main_loop-Logra t (t' ∷ ts) s h f g =
      Logra-linea t (t' ∷ ts) s (mensaje scheduler 22 [] [] ∷ esperados parse (t' ∷ ts)) h.0 f g
        (λ v es p a e.
          Logra-siguiente t' ts v es (esperados parse (t' ∷ ts)) h.1 p a e
            (λ u b c. main_loop-Logra t' ts u h.1 b c))
