-- ===== src/Base/Outcomes.antt =====
-- What holds of the result of a computation that does not fault.
use mathlib.Core.Path.{◌≡◌, refl}
use mathlib.Core.Option.{Option, none, some}
use mathlib.Core.Bool.{Bool}
use sstp_client_i_os.Base.Tests.{◌>>=◌, if◌then◌else◌, if_both}

module _ {ℓ} {A : Type ℓ} where
  -- The computation returns a value, of which `P` holds.
  unfoldable pub Returns : (A → Type 0) → Option A → Type 0
  Returns P none = ⊥
  Returns P (some a) = P a

  pub Returns-some : (P : A → Type 0) (a : A) → P a → Returns P (some a)
  unfolding Returns
  Returns-some P a h = h

  pub Returns-if :
      (P : A → Type 0) (b : Bool) (x y : Option A)
      → Returns P x
      → Returns P y
      → Returns P (if b then x else y)
  Returns-if P b x y hx hy = if_both (Returns P) b x y hx hy

module _ {ℓ ℓ'} {A : Type ℓ} {B : Type ℓ'} where
  pub Returns-bind :
      (P : A → Type 0) (Q : B → Type 0) (o : Option A) (f : A → Option B)
      → Returns P o
      → ((a : A) → P a → Returns Q (f a))
      → Returns Q (o >>= f)
  unfolding Returns
  Returns-bind P Q none f h k = absurd h
  Returns-bind P Q (some a) f h k = k a h

module _ {ℓ} {A : Type ℓ} where
  pub Returns-value : (P : A → Type 0) (o : Option A) → Returns P o → (a : A) × (o ≡ some a) × P a
  unfolding Returns
  Returns-value P none h = absurd h
  Returns-value P (some a) h = (a, refl, h)
