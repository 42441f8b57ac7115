-- ===== src/Coordinador/Letras.antt =====
-- The algorithm KE: assign_letters, find_by_letter and choose_by_letter.
pub mod Cobertura
use tp_re_distinto_so.Base.{
  ℕ, zero, suc, ◌+◌, ◌-◌, ◌/◌, ◌%◌, Bool, true, false, ◌&&◌, ◌||◌, not, List, [], ◌∷◌, Option, none,
  some, Text, Outcome, done, fault, ◌>>=◌, if◌then◌else◌, leb, ◌==◌, find_first, ℤ, pos, negsuc,
  ltz,
}
use tp_re_distinto_so.Coordinador.Estado.{Instance}

-- list_count_satisfying(instances, _is_active)
unfoldable pub cant_activas : List Instance → ℕ
cant_activas [] = 0
cant_activas (p ∷ ps) = if p.is_active then suc (cant_activas ps) else cant_activas ps

-- The letters of each instance, rounded up.
unfoldable pub letters_to_instances : ℕ → ℕ
letters_to_instances cant = if 26 % cant == 0 then 26 / cant else 26 / cant + 1

-- The range from a letter, of so many letters.
unfoldable pub con_letras : ℕ → ℕ → Instance → Instance
con_letras assigned cant p = record p {
  letter_min = 65 + assigned;
  letter_max = 65 + assigned + cant - 1;
}

-- list_iterate(instances, _assign_letters), with cant_letters and assigned_letters. The last branch
-- changes neither of them.
unfoldable pub repartir : ℕ → ℕ → ℕ → List Instance → List Instance
unfolding con_letras
repartir n cant assigned [] = []
repartir n cant assigned (p ∷ ps) =
    if p.is_active
    then (if leb n cant
        then con_letras assigned n p ∷ repartir n (cant - n) (assigned + n) ps
        else con_letras assigned cant p ∷ repartir n cant assigned ps)
    else p ∷ repartir n cant assigned ps

-- With no active instance there is a division by 0.
unfoldable pub assign_letters : List Instance → Outcome (List Instance)
unfolding cant_activas letters_to_instances
assign_letters instances =
    if cant_activas instances == 0
    then fault
    else done (repartir (letters_to_instances (cant_activas instances)) 26 0 instances)

-- A `char` is signed.
unfoldable pub signed : ℕ → ℤ
signed b = if leb 128 b then negsuc (255 - b) else pos b

-- message->key[0], with the NUL that ends an empty key.
unfoldable pub primera_letra : Text → ℤ
unfolding signed
primera_letra [] = pos 0
primera_letra (b ∷ bs) = signed b

-- A lower case letter becomes upper case; 164 and 165 become N.
unfoldable pub mayuscula : ℤ → ℤ
mayuscula (negsuc n) = negsuc n
mayuscula (pos n) =
    let m = if leb 97 n && leb n 122 then n - 32 else n in
    if (m == 164) || (m == 165) then pos 78 else pos m

unfoldable pub has_letter : ℤ → Instance → Bool
has_letter letter q = not (ltz letter (pos q.letter_min)) && not (ltz (pos q.letter_max) letter)

unfoldable pub find_by_letter : List Instance → ℤ → Option Instance
unfolding has_letter
find_by_letter lista letter = find_first (has_letter letter) lista

unfoldable pub choose_by_letter : List Instance → Text → Option Instance
unfolding primera_letra mayuscula
choose_by_letter lista key = find_by_letter lista (mayuscula (primera_letra key))
