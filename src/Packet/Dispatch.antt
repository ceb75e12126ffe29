-- ===== src/Packet/Dispatch.antt =====
-- `switch` on a number, as a table of cases.
use omphalos.Base.{ℕ, Bool, List, [], ◌∷◌, ◌==◌, if◌then◌else◌, Outcome}
use omphalos.Base.Ends.{Ends, Ends-if, Stops, Stops-if}

module _ {ℓ} {A : Type ℓ} where
  unfoldable pub switch : ℕ → List (ℕ × A) → A → A
  switch v [] default = default
  switch v ((k, a) ∷ cases) default = if v == k then a else switch v cases default

-- Every case ends well.
abbrev pub AllEnd {ℓ κ} : {A : Type ℓ} → (A → Type κ) → List (ℕ × Outcome A) → Type (ℓ ⊔ κ)
AllEnd P [] = Unit
AllEnd P ((k, a) ∷ cases) = Ends P a × AllEnd P cases

pub Ends-switch {ℓ κ} :
    {A : Type ℓ} (P : A → Type κ) (v : ℕ) (cases : List (ℕ × Outcome A)) {default : Outcome A}
    → AllEnd P cases
    → Ends P default
    → Ends P (switch v cases default)
unfolding switch
Ends-switch P v [] h d = d
Ends-switch P v ((k, a) ∷ cases) h d =
    Ends-if (v == k) (λ _. h.0) (λ _. Ends-switch P v cases h.1 d)

abbrev pub AllStop {ℓ κ} : {A : Type ℓ} → Bool → (A → Type κ) → List (ℕ × Outcome A) → Type (ℓ ⊔ κ)
AllStop endless P [] = Unit
AllStop endless P ((k, a) ∷ cases) = Stops endless P a × AllStop endless P cases

pub Stops-switch {ℓ κ} :
    {A : Type ℓ} (endless : Bool) (P : A → Type κ) (v : ℕ) (cases : List (ℕ × Outcome A))
    {default : Outcome A}
    → AllStop endless P cases
    → Stops endless P default
    → Stops endless P (switch v cases default)
unfolding switch
Stops-switch endless P v [] h d = d
Stops-switch endless P v ((k, a) ∷ cases) h d =
    Stops-if (v == k) (λ _. h.0) (λ _. Stops-switch endless P v cases h.1 d)
