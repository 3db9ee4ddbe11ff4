-- ===== src/Access/Guards.antt =====
-- What a success says of the guards before it.
use diffuse.Prelude.{
  ℕ, ◌<◌, ◌≡◌, refl, Bool, true, false, Option, none, some, leb, if◌then◌else◌, arith, ap,
  false≢true,
}
use mathlib.Core.Option.{none-ne-some}
use diffuse.Access.{Error, Outcome, ok, fail}
use diffuse.Access.Verify.{and_then, ensure}

pub and_then-some :
    {A B : Type 0} (o : Option A) (f : A → Option B) (b : B)
    → and_then o f ≡ some b
    → (a : A) × (o ≡ some a) × (f a ≡ some b)
unfolding and_then
and_then-some none f b h = absurd (none-ne-some _ h)
and_then-some (some a) f b h = (a, refl, h)

pub ensure-some :
    {A : Type 0} (t : Bool) (o : Option A) (a : A) → ensure t o ≡ some a → (t ≡ true) × (o ≡ some a)
unfolding ensure
ensure-some true o a h = (refl, h)
ensure-some false o a h = absurd (none-ne-some _ h)

-- Whether an outcome is a result.
abbrev pub succeeds : {A : Type 0} → Outcome A → Bool
succeeds (ok a) = true
succeeds (fail e) = false

pub failure : {A : Type 0} (e : Error) (a : A) → fail e ≡ ok a → ⊥
failure e a h = false≢true (ap succeeds h)

pub result : {A : Type 0} → A → Outcome A → A
result a (ok b) = b
result a (fail e) = a

pub ok-injective : {A : Type 0} (a b : A) → ok a ≡ ok b → a ≡ b
unfolding result
ok-injective a b h = ap (result a) h

pub later : (a b : ℕ) → leb a b ≡ false → b < a
later a b h = ground arith

pub unchecked :
    {A : Type 0} (b : Bool) (e : Error) (o : Outcome A) (a : A)
    → (if b then fail e else o) ≡ ok a
    → (b ≡ false) × (o ≡ ok a)
unchecked true e o a h = absurd (failure e a h)
unchecked false e o a h = (refl, h)

pub checked :
    {A : Type 0} (b : Bool) (e : Error) (o : Outcome A) (a : A)
    → (if b then o else fail e) ≡ ok a
    → (b ≡ true) × (o ≡ ok a)
checked true e o a h = (refl, h)
checked false e o a h = absurd (failure e a h)
