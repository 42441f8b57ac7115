-- ===== src/Planificador/Estimacion.antt =====
-- calculate_estimation, response_ratio, sort_list_by_algorithm, refresh_waiting_time and
-- update_values.
use tp_re_distinto_so.Base.{
  any_satisfy, leb, length, ◌&&◌, Sorting, ℕ, ◌+◌, Bool, false, List, [], ◌∷◌, none, some, Text,
  codes, Commons, Outcome, done, fault, ◌>>=◌, if◌then◌else◌, get_elem?,
}
use tp_re_distinto_so.Planificador.Estado.{
  Algorithm, sjfsd, sjfcd, hrrn, Floats, Esi, Estado, load, store,
}

unfoldable pub to_algorithm : Commons → Text → Algorithm
to_algorithm commons s =
    if commons.equals_ignore_case s (codes "SJF-SD")
    then sjfsd
    else (if commons.equals_ignore_case s (codes "SJF-CD")
        then sjfcd
        else (if commons.equals_ignore_case s (codes "HRRN") then hrrn else sjfsd))

module _ {F : Type 0} (fl : Floats F) where
  open fl use {of_int, trunc, add, sub, mul, div, le, lt}

  -- The previous estimation is replaced before the new one is computed from its old value.
  unfoldable pub nueva_estimacion : ℕ → Esi F → Esi F
  nueva_estimacion alpha e =
      let alpha_a = mul (div (of_int alpha) (of_int 100)) (of_int e.instructions_counter) in
      let alpha_b =
        mul (sub (of_int 1) (div (of_int alpha) (of_int 100))) (trunc e.cpu_time_previous) in
      record e {
        cpu_time_previous = e.cpu_time_estimated;
        cpu_time_estimated = add alpha_a alpha_b;
      }

  unfoldable pub calculate_estimation : ℕ → Estado F → Outcome (Estado F)
  calculate_estimation p s = do e ← load s p; done (store s p (nueva_estimacion s.alpha e))

  unfoldable pub response_ratio : Esi F → F
  response_ratio e = div (add e.waiting_time e.cpu_time_estimated) e.cpu_time_estimated

  unfoldable pub best_esi : Algorithm → Esi F → Esi F → Bool
  unfolding response_ratio
  best_esi sjfsd p q = le p.cpu_time_estimated q.cpu_time_estimated
  best_esi sjfcd p q = le p.cpu_time_estimated q.cpu_time_estimated
  best_esi hrrn p q = le (response_ratio q) (response_ratio p)

  -- The comparator on pointers; sort_list_by_algorithm calls it on pointers to ESIs only.
  unfoldable pub best_by_algorithm : Estado F → ℕ → ℕ → Bool
  best_by_algorithm s p q = elim (get_elem? s.esis p) [
    | none ↦ false
    | some a ↦ elim (get_elem? s.esis q) [ none ↦ false | some b ↦ best_esi s.algorithm a b ]
  ]

  -- A pointer to no ESI, in a list of two or more, which the comparator would follow.
  unfoldable pub sigue_malo : Estado F → Bool
  sigue_malo s =
      leb 2 (length s.lista_ready) && any_satisfy (λ p. leb (length s.esis) p) s.lista_ready

  unfoldable pub sort_list_by_algorithm : Sorting → Estado F → Outcome (Estado F)
  sort_list_by_algorithm sorting s =
      if sigue_malo s
      then fault
      else done (record s { lista_ready = sorting.list_sort (best_by_algorithm s) s.lista_ready })

  -- list_iterate over the pointers of lista_ready.
  unfoldable pub increase_times : List ℕ → Estado F → Outcome (Estado F)
  increase_times [] s = done s
  increase_times (p ∷ ps) s = do
    e ← load s p
    increase_times ps (store s p (record e { waiting_time = add e.waiting_time (of_int 1) }))

  unfoldable pub refresh_waiting_time : Estado F → Outcome (Estado F)
  refresh_waiting_time s = increase_times s.lista_ready s

  unfoldable pub descontar : Algorithm → ℕ → Esi F → Estado F → Outcome (Estado F)
  descontar sjfsd p e s =
      done (store s p (record e { cpu_time_estimated = sub e.cpu_time_estimated (of_int 1) }))
  descontar sjfcd p e s =
      done (store s p (record e { cpu_time_estimated = sub e.cpu_time_estimated (of_int 1) }))
  descontar hrrn p e s = refresh_waiting_time s

  unfoldable pub update_values : Estado F → Outcome (Estado F)
  unfolding descontar
  update_values s = elim s.un_esi [
    | none ↦ fault
    | some p ↦ do
      e ← load s p
      let e' = record e { instructions_counter = e.instructions_counter + 1 }
      descontar s.algorithm p e' (store s p e')
  ]
