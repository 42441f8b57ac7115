-- ===== src/Coordinador/Instancias/Destino.antt =====
-- Where the keys go under KE after a connection.
use tp_re_distinto_so.Base.{ℕ, ◌+◌, ◌≤◌, ◌≡◌, ◌⊎◌, true, ◌∷◌, some, Text, Commons, done, All}
use tp_re_distinto_so.Coordinador.Estado.{ke, Instance, Estado}
use tp_re_distinto_so.Coordinador.Letras.{choose_by_letter}
use tp_re_distinto_so.Coordinador.Letras.Cobertura.{SinLetras, choose_by_letter-Cubre}
use tp_re_distinto_so.Coordinador.Instancias.{Alta, add_instance_to_list}
use tp_re_distinto_so.Coordinador.Instancias.Altas.{add_instance_to_list-Cubre}

-- Under KE, where the instances that are down have no letters: once an instance has connected, known
-- or new, a key that begins with a letter, in either case, goes to an active instance whose range has
-- that letter.
pub choose_by_letter-add_instance_to_list :
    (commons : Commons) (name : Text) (socket : ℕ) (s : Estado) (b letter : ℕ) (bs : Text)
    → s.algorithm ≡ ke
    → All SinLetras s.instances
    → 65 ≤ letter
    → letter ≤ 90
    → (b ≡ letter) ⊎ (b ≡ letter + 32)
    → (a : Alta) × (p : Instance) × (add_instance_to_list commons name socket s ≡ done a)
      × (choose_by_letter a.estado.instances (b ∷ bs) ≡ some p)
      × (p.is_active ≡ true)
      × (p.letter_min ≤ letter)
      × (letter ≤ p.letter_max)
choose_by_letter-add_instance_to_list commons name socket s b letter bs k h desde hasta e =
    let (a, r, cubre, sl, nueva) = add_instance_to_list-Cubre commons name socket s k h in
    let (p, elegida, activa, min, max) =
      choose_by_letter-Cubre a.estado.instances b letter bs cubre desde hasta e in
    (a, p, r, elegida, activa, min, max)
