-- ===== src/Pruebas/DeEsi.antt =====
-- A script of two lines, of which the first one is blocked once.
use tp_re_distinto_so.Base.{
  ℕ, ◌≡◌, refl, true, false, List, [], ◌∷◌, ◌++◌, codes, if◌then◌else◌, ◌==◌, All,
}
use tp_re_distinto_so.Esi.Estado.{Operacion, no_valida, get, store, Estado, salir}
use tp_re_distinto_so.Esi.Turno.{turno, main_loop}
use tp_re_distinto_so.Esi.Turno.Informe.{al_scheduler, Informa, turno-Informa}
use tp_re_distinto_so.Esi.Turno.Guion.{
  Tarea, EsTarea, siempre, ronda, rondas, guion, esperados, linea,
}
use tp_re_distinto_so.Esi.Turno.Guion.Corrida.{main_loop-Logra}

-- A parser of lines "G..." and "S...".
abbrev letra : List ℕ → Operacion
letra [] = no_valida
letra (c ∷ cs) = if c == 71 then get cs else store cs

abbrev tarea_get : Tarea
tarea_get = record { inicio = 71; demas = codes "a"; bloqueos = 1 }

abbrev tarea_store : Tarea
tarea_store = record { inicio = 83; demas = codes "a"; bloqueos = 0 }

abbrev empezado : Estado
empezado = record {
  script = codes "Ga" ++ 10 ∷ codes "Sa" ++ 10 ∷ [];
  parsed = no_valida;
  flag_blocked = false;
  enviados = [];
}

tareas-EsTarea : All (EsTarea letra) (tarea_get ∷ tarea_store ∷ [])
unfolding EsTarea linea
tareas-EsTarea = ((refl, refl, (refl, tt), refl), ((refl, refl, (refl, tt), refl), tt))

guion_lem : empezado.script ≡ guion (tarea_get ∷ tarea_store ∷ [])
unfolding guion
guion_lem = refl

main_loop-Logra_example :
    (u : Estado) × (main_loop siempre letra (rondas (tarea_get ∷ tarea_store ∷ [])) empezado
      ≡ salir true u)
    × (u.enviados ≡ esperados letra (tarea_get ∷ tarea_store ∷ []))
main_loop-Logra_example =
    main_loop-Logra letra tarea_get (tarea_store ∷ []) empezado tareas-EsTarea refl guion_lem

turno-Informa_example :
    Informa (al_scheduler empezado.enviados) (turno siempre letra (ronda 22) empezado)
turno-Informa_example = turno-Informa siempre (λ l. refl) letra (ronda 22) empezado
