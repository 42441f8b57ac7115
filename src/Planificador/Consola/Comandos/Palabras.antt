-- ===== src/Planificador/Consola/Comandos/Palabras.antt =====
-- The words of the commands.
use tp_re_distinto_so.Base.{
  ◌≡◌, ◌↔◌, refl, sym, ◌∙◌, subst, ap, Bool, true, false, Text, codes, Commons, Option, none, some,
  map, str_eq, str_eq→eq, to_lower, if◌then◌else◌,
}
use tp_re_distinto_so.Planificador.Consola.{Commands, to_enum}

-- The word of each command; `error` stands for what is none.
abbrev pub palabra : Commands → Option Text
palabra Commands.exit = some (codes "EXIT")
palabra Commands.pause = some (codes "PAUSE")
palabra Commands.resume = some (codes "RESUME")
palabra Commands.block = some (codes "BLOCK")
palabra Commands.unlock = some (codes "UNLOCK")
palabra Commands.list = some (codes "LIST")
palabra Commands.kill = some (codes "KILL")
palabra Commands.status = some (codes "STATUS")
palabra Commands.deadlock = some (codes "DEADLOCK")
palabra Commands.help = some (codes "HELP")
palabra Commands.error = none

-- The first of the words that the text is, in lower case.
leer : Text → Commands
leer m =
    if str_eq m (map to_lower (codes "EXIT"))
    then Commands.exit
    else (if str_eq m (map to_lower (codes "PAUSE"))
        then Commands.pause
        else (if str_eq m (map to_lower (codes "RESUME"))
            then Commands.resume
            else (if str_eq m (map to_lower (codes "BLOCK"))
                then Commands.block
                else (if str_eq m (map to_lower (codes "UNLOCK"))
                    then Commands.unlock
                    else (if str_eq m (map to_lower (codes "LIST"))
                        then Commands.list
                        else (if str_eq m (map to_lower (codes "KILL"))
                            then Commands.kill
                            else (if str_eq m (map to_lower (codes "STATUS"))
                                then Commands.status
                                else (if str_eq m (map to_lower (codes "DEADLOCK"))
                                    then Commands.deadlock
                                    else (if str_eq m (map to_lower (codes "HELP"))
                                        then Commands.help
                                        else Commands.error)))))))))

-- The text, in lower case, is the word of the command.
abbrev Bien : Text → Commands → Type 0
Bien m c = elim (palabra c) [ none ↦ Unit | some w ↦ str_eq m (map to_lower w) ≡ true ]

Bien-if :
    (m : Text) (b : Bool) (x y : Commands)
    → (b ≡ true → Bien m x)
    → Bien m y
    → Bien m (if b then x else y)
Bien-if m true x y h k = h refl
Bien-if m false x y h k = k

leer-Bien : (m : Text) → Bien m (leer m)
unfolding leer
leer-Bien m =
    Bien-if m (str_eq m (map to_lower (codes "EXIT"))) _ _ (λ e. e)
      (Bien-if m (str_eq m (map to_lower (codes "PAUSE"))) _ _ (λ e. e)
        (Bien-if m (str_eq m (map to_lower (codes "RESUME"))) _ _ (λ e. e)
          (Bien-if m (str_eq m (map to_lower (codes "BLOCK"))) _ _ (λ e. e)
            (Bien-if m (str_eq m (map to_lower (codes "UNLOCK"))) _ _ (λ e. e)
              (Bien-if m (str_eq m (map to_lower (codes "LIST"))) _ _ (λ e. e)
                (Bien-if m (str_eq m (map to_lower (codes "KILL"))) _ _ (λ e. e)
                  (Bien-if m (str_eq m (map to_lower (codes "STATUS"))) _ _ (λ e. e)
                    (Bien-if m (str_eq m (map to_lower (codes "DEADLOCK"))) _ _ (λ e. e)
                      (Bien-if m (str_eq m (map to_lower (codes "HELP"))) _ _ (λ e. e) (tt))))))))))

leer-igual : (l w m : Text) → some l ≡ some w → m ≡ map to_lower w → leer m ≡ leer (map to_lower l)
leer-igual l w m e h = let e' : l ≡ w = cc in ap leer (h ∙ ap (λ x. map to_lower x) (sym e'))

leer-palabra : (c : Commands) (w m : Text) → palabra c ≡ some w → m ≡ map to_lower w → leer m ≡ c
unfolding leer str_eq to_lower
leer-palabra Commands.exit w m e h = leer-igual (codes "EXIT") w m e h
leer-palabra Commands.pause w m e h = leer-igual (codes "PAUSE") w m e h
leer-palabra Commands.resume w m e h = leer-igual (codes "RESUME") w m e h
leer-palabra Commands.block w m e h = leer-igual (codes "BLOCK") w m e h
leer-palabra Commands.unlock w m e h = leer-igual (codes "UNLOCK") w m e h
leer-palabra Commands.list w m e h = leer-igual (codes "LIST") w m e h
leer-palabra Commands.kill w m e h = leer-igual (codes "KILL") w m e h
leer-palabra Commands.status w m e h = leer-igual (codes "STATUS") w m e h
leer-palabra Commands.deadlock w m e h = leer-igual (codes "DEADLOCK") w m e h
leer-palabra Commands.help w m e h = leer-igual (codes "HELP") w m e h
leer-palabra Commands.error w m e h = cc

module _ (commons : Commons) where
  open commons use {equals_ignore_case, equals_lower}

  to_enum-leer : (a : Text) → to_enum commons a ≡ leer (map to_lower a)
  unfolding to_enum leer
  to_enum-leer a =
      rw
        (
          equals_lower a (codes "EXIT"),
          equals_lower a (codes "PAUSE"),
          equals_lower a (codes "RESUME"),
          equals_lower a (codes "BLOCK"),
          equals_lower a (codes "UNLOCK"),
          equals_lower a (codes "LIST"),
          equals_lower a (codes "KILL"),
          equals_lower a (codes "STATUS"),
          equals_lower a (codes "DEADLOCK"),
          equals_lower a (codes "HELP"),
        )
        refl

  -- Each command has its word, one of EXIT, PAUSE, RESUME, BLOCK, UNLOCK, LIST, KILL, STATUS, DEADLOCK
  -- and HELP: a text is read as the command just if it is that word but for the case of letters.
  pub to_enum-palabra :
      (c : Commands) (w a : Text)
      → palabra c ≡ some w
      → (to_enum commons a ≡ c) ↔ (equals_ignore_case a w ≡ true)
  to_enum-palabra c w a e = (
    (λ h.
        let b : Bien (map to_lower a) c =
          subst (Bien (map to_lower a)) (sym (to_enum-leer a) ∙ h) (leer-Bien (map to_lower a)) in
        equals_lower a w
        ∙ subst
            (λ o. elim o [ none ↦ Unit | some x ↦ str_eq (map to_lower a) (map to_lower x) ≡ true ])
            e b),
    (λ h.
        to_enum-leer a
        ∙ leer-palabra c w (map to_lower a) e
            (str_eq→eq (map to_lower a) (map to_lower w) (sym (equals_lower a w) ∙ h))),
  )
