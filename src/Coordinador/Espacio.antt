-- ===== src/Coordinador/Espacio.antt =====
-- The algorithm LSU: find_by_free_space and choose_by_space.
pub mod Mayor
use tp_re_distinto_so.Base.{
  ℕ, suc, ◌+◌, Bool, true, false, List, [], ◌∷◌, Option, none, some, Outcome, done, fault, ◌>>=◌,
  if◌then◌else◌, leb, ◌==◌, get_elem?, keep, length, Sorting,
}
use tp_re_distinto_so.Coordinador.Estado.{Instance}
use tp_re_distinto_so.Coordinador.Turno.{Eleccion}

-- list_filter(lista, _is_active), as the indices of the instances from index i on.
unfoldable pub activas_desde : ℕ → List Instance → List ℕ
activas_desde i [] = []
activas_desde i (p ∷ ps) =
    if p.is_active then i ∷ activas_desde (suc i) ps else activas_desde (suc i) ps

unfoldable pub espacio_de : List Instance → ℕ → ℕ
espacio_de lista p = elim (get_elem? lista p) [ none ↦ 0 | some q ↦ q.free_space ]

-- _lower_than_the_next: the greater space goes first.
unfoldable pub lower_than_the_next : List Instance → ℕ → ℕ → Bool
unfolding espacio_de
lower_than_the_next lista p q = leb (espacio_de lista q) (espacio_de lista p)

unfoldable pub has_the_same_space : List Instance → ℕ → ℕ → Bool
unfolding espacio_de
has_the_same_space lista p q = espacio_de lista q == espacio_de lista p

-- The instances with the space of the first one; with no active instance there is none.
unfoldable pub con_el_mismo : List Instance → List ℕ → Outcome (List ℕ)
unfolding has_the_same_space
con_el_mismo lista [] = fault
con_el_mismo lista (p ∷ ps) = done (keep (has_the_same_space lista p) (p ∷ ps))

unfoldable pub find_by_free_space : Sorting → List Instance → Outcome (List ℕ)
unfolding activas_desde lower_than_the_next con_el_mismo
find_by_free_space sorting lista =
    con_el_mismo lista (sorting.list_sort (lower_than_the_next lista) (activas_desde 0 lista))

-- Among these, that of the pointer, which goes back to 0 behind the last one.
unfoldable pub elegir_en : Bool → List ℕ → ℕ → Outcome Eleccion
elegir_en simulate mismos i =
    let j = if leb (length mismos) i then 0 else i in
    elim (get_elem? mismos j) [
      | none ↦ fault
      | some p ↦ done (record { elegida = p; instance_pointer = if simulate then j else suc j })
    ]

unfoldable pub choose_by_space : Sorting → Bool → List Instance → ℕ → Outcome Eleccion
unfolding elegir_en
choose_by_space sorting simulate lista i = do
  mismos ← find_by_free_space sorting lista
  elegir_en simulate mismos i
