-- ===== src/Coordinador/Turno.antt =====
-- The algorithm EL: choose_by_counter takes the instances in turn.
pub mod Vuelta
use tp_re_distinto_so.Base.{
  ℕ, suc, ◌+◌, Bool, true, false, List, [], ◌∷◌, Option, none, some, Outcome, done, fault,
  if◌then◌else◌, leb, get_elem?, drop, length,
}
use tp_re_distinto_so.Coordinador.Estado.{Instance}

-- The index of the chosen instance, and the pointer of the next turn.
pub record Eleccion : Type 0 where
  pub elegida : ℕ
  pub instance_pointer : ℕ

-- The `while`, with the instances from the pointer on: while the chosen one is down, the next one.
unfoldable pub saltar : Bool → ℕ → ℕ → List Instance → Eleccion
saltar true elegida i resto = record { elegida = elegida; instance_pointer = i }
saltar false elegida i [] = record { elegida = elegida; instance_pointer = i }
saltar false elegida i (p ∷ ps) = saltar p.is_active i (suc i) ps

-- At the end of the list the pointer goes back to 0.
unfoldable pub choose_by_counter : Bool → List Instance → ℕ → Outcome Eleccion
unfolding saltar
choose_by_counter simulate lista i = elim (get_elem? lista i) [
  | none ↦ fault
  | some q ↦
      let j = if simulate then i else suc i in
      let e = saltar q.is_active i j (drop j lista) in
      done (record e {
        instance_pointer = if leb (length lista) e.instance_pointer then 0 else e.instance_pointer;
      })
]
