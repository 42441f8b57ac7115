-- ===== src/Base/Rules.antt =====
-- Partial correctness of an Outcome: what holds of its value, if it is done; and that it is not spent.
-- The rules follow the constructs of the code.
use mathlib.Core.Path.{◌≡◌, refl}
use mathlib.Core.Logic.{◌≢◌}
use mathlib.Core.Bool.{Bool, true, false}
use mathlib.Core.Option.{Option, none, some}
use tp_re_distinto_so.Base.Tests.{if◌then◌else◌}
use tp_re_distinto_so.Base.Outcomes.{Outcome, done, fault, exits, waits, spent, ◌>>=◌}

pub record Ensures {ℓ κ} {A : Type ℓ} (P : A → Type κ) (m : Outcome A) : Type (ℓ ⊔ κ) where
  pub value : (a : A) → m ≡ done a → P a

module _ {ℓ κ} {A : Type ℓ} {P : A → Type κ} where
  pub Ensures-done : (a : A) → P a → Ensures P (done a)
  Ensures-done a h = record { value = λ b e. (let e' : a ≡ b = cc in rw (← e') h) }

  pub Ensures-fault : Ensures P fault
  Ensures-fault = record { value = λ b e. cc }

  pub Ensures-waits : Ensures P waits
  Ensures-waits = record { value = λ b e. cc }

  pub Ensures-spent : Ensures P spent
  Ensures-spent = record { value = λ b e. cc }

  pub Ensures-exits : Ensures P exits
  Ensures-exits = record { value = λ b e. cc }

  pub Ensures-if :
      (b : Bool) (m n : Outcome A)
      → (b ≡ true → Ensures P m)
      → (b ≡ false → Ensures P n)
      → Ensures P (if b then m else n)
  Ensures-if true m n h k = h refl
  Ensures-if false m n h k = k refl

  pub Ensures-elim :
      (b : Bool) (m n : Outcome A)
      → (b ≡ true → Ensures P m)
      → (b ≡ false → Ensures P n)
      → Ensures P (elim b [ true ↦ m | false ↦ n ])
  Ensures-elim true m n h k = h refl
  Ensures-elim false m n h k = k refl

  -- A weaker statement.
  pub Ensures-mono {θ} :
      {Q : A → Type θ} (m : Outcome A) → ((a : A) → Q a → P a) → Ensures Q m → Ensures P m
  Ensures-mono m f h = record { value = λ a e. f a (h.value a e) }

  pub Ensures-option {ι} :
      {B : Type ι} (o : Option B) (m : Outcome A) (f : B → Outcome A)
      → (o ≡ none → Ensures P m)
      → ((b : B) → o ≡ some b → Ensures P (f b))
      → Ensures P (elim o [ none ↦ m | some b ↦ f b ])
  Ensures-option none m f h k = h refl
  Ensures-option (some b) m f h k = k b refl

  pub Ensures->>= {ι θ} :
      {B : Type ι} {Q : B → Type θ} (m : Outcome B) (f : B → Outcome A)
      → Ensures Q m
      → ((b : B) → Q b → Ensures P (f b))
      → Ensures P (m >>= f)
  Ensures->>= (done b) f h k = k b (h.value b refl)
  Ensures->>= fault f h k = Ensures-fault
  Ensures->>= exits f h k = Ensures-exits
  Ensures->>= waits f h k = Ensures-waits
  Ensures->>= spent f h k = Ensures-spent

-- Rules for a fuel that does not run out.
module _ {ℓ} {A : Type ℓ} where
  pub bastar-if :
      (b : Bool) (m n : Outcome A)
      → (b ≡ true → m ≢ spent)
      → (b ≡ false → n ≢ spent)
      → (if b then m else n) ≢ spent
  bastar-if true m n h k = h refl
  bastar-if false m n h k = k refl

  pub bastar-elim :
      (b : Bool) (m n : Outcome A)
      → (b ≡ true → m ≢ spent)
      → (b ≡ false → n ≢ spent)
      → (elim b [ true ↦ m | false ↦ n ]) ≢ spent
  bastar-elim true m n h k = h refl
  bastar-elim false m n h k = k refl

  pub bastar-option {κ} :
      {B : Type κ} (o : Option B) (m : Outcome A) (f : B → Outcome A)
      → m ≢ spent
      → ((b : B) → o ≡ some b → f b ≢ spent)
      → (elim o [ none ↦ m | some b ↦ f b ]) ≢ spent
  bastar-option none m f h k = h
  bastar-option (some b) m f h k = k b refl

  pub bastar->>= {κ θ} :
      {B : Type κ} {Q : B → Type θ} (m : Outcome B) (f : B → Outcome A)
      → m ≢ spent
      → Ensures Q m
      → ((b : B) → Q b → f b ≢ spent)
      → (m >>= f) ≢ spent
  bastar->>= (done b) f n h k = k b (h.value b refl)
  bastar->>= fault f n h k = λ e. cc
  bastar->>= exits f n h k = λ e. cc
  bastar->>= waits f n h k = λ e. cc
  bastar->>= spent f n h k = absurd (n refl)
