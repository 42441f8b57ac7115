-- ===== src/Coordinador/Letras/Cobertura.antt =====
-- After assign_letters every letter has an active instance.
use native.Mathlib.Nat.{div-add-mod', mod-lt}
use tp_re_distinto_so.Base.{
  ℕ, suc, ◌+◌, ◌-◌, ◌*◌, ◌%◌, ◌≤◌, ◌<◌, ◌≡◌, refl, sym, ◌∙◌, ap, subst, Bool, true, false, List, [],
  ◌∷◌, some, Text, if◌then◌else◌, leb, leb→le, ◌⊎◌, ◌==◌, ==_iff, All, pos, arith, Bool-cases, inl,
  inr,
}
use tp_re_distinto_so.Coordinador.Estado.{Instance}
use tp_re_distinto_so.Coordinador.Letras.{
  cant_activas, letters_to_instances, con_letras, repartir, has_letter, find_by_letter,
  choose_by_letter, mayuscula, primera_letra, signed,
}

-- An instance that is not active has no letter.
abbrev pub SinLetras : Instance → Type 0
SinLetras p = p.is_active ≡ false → p.letter_max ≡ 0

-- The letter, from A to Z, has an active instance.
pub record TieneInstancia (lista : List Instance) (letter : ℕ) : Type 0 where
  pub instancia : Instance
  pub encontrada : find_by_letter lista (pos letter) ≡ some instancia
  pub activa : instancia.is_active ≡ true
  pub desde : instancia.letter_min ≤ letter
  pub hasta : letter ≤ instancia.letter_max

abbrev pub Cubre : List Instance → Type 0
Cubre lista = (letter : ℕ) → 65 ≤ letter → letter ≤ 90 → TieneInstancia lista letter

aqui :
    (p : Instance) (ps : List Instance) (letter : ℕ)
    → p.is_active ≡ true
    → p.letter_min ≤ letter
    → letter ≤ p.letter_max
    → TieneInstancia (p ∷ ps) letter
unfolding find_by_letter has_letter
aqui p ps letter a h k = record {
  instancia = p;
  encontrada = ground arith;
  activa = a;
  desde = h;
  hasta = k;
}

mas_alla :
    (p : Instance) (ps : List Instance) (letter : ℕ)
    → has_letter (pos letter) p ≡ false
    → TieneInstancia ps letter
    → TieneInstancia (p ∷ ps) letter
unfolding find_by_letter
mas_alla p ps letter n t = record {
  instancia = t.instancia;
  encontrada = rw n t.encontrada;
  activa = t.activa;
  desde = t.desde;
  hasta = t.hasta;
}

fuera : (p : Instance) (letter : ℕ) → p.letter_max < letter → has_letter (pos letter) p ≡ false
unfolding has_letter
fuera p letter h = ground arith

module _ (n cant assigned : ℕ) (p : Instance) (ps : List Instance) where
  unfoldable pub entero : List Instance
  entero = con_letras assigned n p ∷ repartir n (cant - n) (assigned + n) ps

  unfoldable pub ultimo : List Instance
  ultimo = con_letras assigned cant p ∷ repartir n cant assigned ps

  pub repartir-cons :
      (a cabe : Bool)
      → p.is_active ≡ a
      → leb n cant ≡ cabe
      → repartir n cant assigned (p ∷ ps)
        ≡ (if a then (if cabe then entero else ultimo) else p ∷ repartir n cant assigned ps)
  unfolding repartir entero ultimo
  repartir-cons a cabe e f =
      ap
        (λ b.
          if b then (if leb n cant then entero else ultimo) else p ∷ repartir n cant assigned ps)
        e
      ∙ ap (λ b. if a then (if b then entero else ultimo) else p ∷ repartir n cant assigned ps) f

TieneInstancia-igual :
    (xs ys : List Instance) (letter : ℕ)
    → xs ≡ ys
    → TieneInstancia ys letter
    → TieneInstancia xs letter
TieneInstancia-igual xs ys letter e t = subst (λ l. TieneInstancia l letter) (sym e) t

pub repartir-TieneInstancia :
    (n cant assigned letter : ℕ) (ps : List Instance)
    → assigned + cant ≡ 26
    → cant ≤ cant_activas ps * n
    → All SinLetras ps
    → 65 + assigned ≤ letter
    → letter ≤ 90
    → TieneInstancia (repartir n cant assigned ps) letter
unfolding cant_activas con_letras entero ultimo
repartir-TieneInstancia n cant assigned letter [] e c h k l = absurd (omega arith)
repartir-TieneInstancia n cant assigned letter (p ∷ ps) e c h k l =
    let igual = repartir-cons n cant assigned p ps in
    elim (Bool-cases p.is_active) [
      | inr no_activa ↦
          let resto =
            repartir-TieneInstancia n cant assigned letter ps e (rw no_activa at c) h.1 k l in
          let sin_letras : p.letter_max ≡ 0 = h.0 no_activa in
          TieneInstancia-igual _ _ letter (igual false (leb n cant) no_activa refl)
            (mas_alla p _ letter (fuera p letter (omega arith)) resto)
      | inl activa ↦ elim (Bool-cases (leb n cant)) [
        | inr ultima ↦
            TieneInstancia-igual _ _ letter (igual true false activa ultima)
              (aqui (con_letras assigned cant p) _ letter activa (omega arith) (omega arith))
        | inl entera ↦
            TieneInstancia-igual _ _ letter (igual true true activa entera)
              (elim (Bool-cases (leb letter (65 + assigned + n - 1))) [
                | inl dentro ↦
                    aqui (con_letras assigned n p) _ letter activa (omega arith)
                      (leb→le letter (65 + assigned + n - 1) dentro)
                | inr despues ↦
                    let quedan : cant ≤ suc (cant_activas ps) * n = rw activa at c in
                    let mas : 65 + assigned + n - 1 < letter = ground arith in
                    let cabe : n ≤ cant = leb→le n cant entera in
                    mas_alla (con_letras assigned n p) _ letter
                      (fuera (con_letras assigned n p) letter mas)
                      (repartir-TieneInstancia n (cant - n) (assigned + n) letter ps (omega arith)
                        (omega arith) h.1 (omega arith) l)
              ])
      ]
    ]

pub bastan : (cant : ℕ) → 0 < cant → 26 ≤ cant * letters_to_instances cant
unfolding letters_to_instances
bastan cant h = elim (Bool-cases (26 % cant == 0)) [
  | inl exacta ↦ rw exacta (omega (arith, div-add-mod' 26 cant, (==_iff (26 % cant) 0).0 exacta))
  | inr resto ↦ rw resto (omega (arith, div-add-mod' 26 cant, mod-lt 26 h))
]

letra_de :
    (b letter : ℕ) (bs : Text)
    → 65 ≤ letter
    → letter ≤ 90
    → (b ≡ letter) ⊎ (b ≡ letter + 32)
    → mayuscula (primera_letra (b ∷ bs)) ≡ pos letter
unfolding primera_letra signed mayuscula
letra_de b letter bs h k (inl e) = ground arith
letra_de b letter bs h k (inr e) = ground arith

-- Where every letter has an active instance, a key that begins with the letter, in either case, is
-- given to an active instance whose range has the letter.
pub choose_by_letter-Cubre :
    (lista : List Instance) (b letter : ℕ) (bs : Text)
    → Cubre lista
    → 65 ≤ letter
    → letter ≤ 90
    → (b ≡ letter) ⊎ (b ≡ letter + 32)
    → (p : Instance) × (choose_by_letter lista (b ∷ bs) ≡ some p)
      × (p.is_active ≡ true)
      × (p.letter_min ≤ letter)
      × (letter ≤ p.letter_max)
unfolding choose_by_letter
choose_by_letter-Cubre lista b letter bs c h k e =
    let t = c letter h k in
    (t.instancia, rw (letra_de b letter bs h k e) t.encontrada, t.activa, t.desde, t.hasta)
