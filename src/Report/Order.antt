-- ===== src/Report/Order.antt =====
-- What the guards and the order of a report come to.
use diffuse.Prelude.{
  ℕ, ◌≤◌, ◌≡◌, refl, Bool, true, false, ◌&&◌, ◌||◌, none, some, ltb, ◌==◌, if◌then◌else◌, arith,
}
use mathlib.Core.Option.{some-injective}

pub blocked :
    {A : Type 0} {x y : A} (b : Bool)
    → (if b then none else some x) ≡ some y
    → (b ≡ false) × (x ≡ y)
blocked true e = ground arith
blocked false e = (refl, some-injective _ _ e)

pub passed :
    {A : Type 0} {x y : A} (b : Bool) → (if b then some x else none) ≡ some y → (b ≡ true) × (x ≡ y)
passed true e = (refl, some-injective _ _ e)
passed false e = ground arith

pub before_first : (a b : ℕ) (t : Bool) → (ltb a b || (a == b && t)) ≡ true → a ≤ b
before_first a b t h = ground arith

pub before_last : (a b : ℕ) (t : Bool) → (ltb a b || (a == b && t)) ≡ false → b ≤ a
before_last a b t h = ground arith
