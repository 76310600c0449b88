-- ===== src/Base/Effects.antt =====
-- Functions that change state and may fail. A Go function that returns an error has written what it
-- wrote, so the state comes back beside the error; a run-time panic is an outcome of its own.

use mathlib.Core.Option.{Option, none, some}

pub data Outcome {ℓ} (E A : Type ℓ) : Type ℓ where
  ok : A → Outcome E A
  err : E → Outcome E A
  panic : Outcome E A

abbrev pub Exec {ℓ} : Type ℓ → Type ℓ → Type ℓ → Type ℓ
Exec S E A = S → Outcome E A × S

module _ {ℓ} {S E A : Type ℓ} where
  abbrev pub pure : A → Exec S E A
  pure a s = (ok a, s)

  abbrev pub fail : E → Exec S E A
  fail e s = (err e, s)

  abbrev pub crash : Exec S E A
  crash s = (panic, s)

  abbrev pub gets : (S → A) → Exec S E A
  gets f s = (ok (f s), s)

  -- `x, err := m`: an error is a value that the caller looks at, a panic is not
  abbrev pub seen : Outcome E A → S → Outcome E (Outcome E A) × S
  seen (ok a) s = (ok (ok a), s)
  seen (err e) s = (ok (err e), s)
  seen panic s = (panic, s)

  abbrev pub attempt : Exec S E A → Exec S E (Outcome E A)
  attempt m s = let (r, s') = m s in seen r s'

module _ {ℓ} {S E A B : Type ℓ} where
  abbrev pub continue : Outcome E A → (A → Exec S E B) → Exec S E B
  continue (ok a) f s = f a s
  continue (err e) f s = (err e, s)
  continue panic f s = (panic, s)

  -- `if err != nil { return err }` after each step
  infixl 10 ◌>>=◌ ◌>>◌
  abbrev pub ◌>>=◌ : Exec S E A → (A → Exec S E B) → Exec S E B
  ◌>>=◌ m f s = let (r, s') = m s in continue r f s'

  abbrev pub ◌>>◌ : Exec S E A → Exec S E B → Exec S E B
  m >> n = m >>= λ _. n

abbrev pub modify {ℓ} : {S E : Type ℓ} → (S → S) → Exec S E Unit
modify f s = (ok tt, f s)

-- `P` holds of the value, if there is one
abbrev pub IfSome {ℓ κ} : {A : Type ℓ} → (A → Type κ) → Option A → Type κ
IfSome P none = Unit
IfSome P (some a) = P a

pub IfSome-elim :
    {A B : Type 0} (P : A → Type 0) (Q : B → Type 0) (o : Option A) (f : A → Option B)
    → IfSome P o
    → ((a : A) → P a → IfSome Q (f a))
    → IfSome Q (elim o as (λ _. Option B) [ none ↦ none | some a ↦ f a ])
IfSome-elim P Q none f h k = tt
IfSome-elim P Q (some a) f h k = k a h
