-- ===== src/Prelude/Reflect.antt =====
-- What a Boolean test says as a proposition, put together from its parts.
use mathlib.Core.Logic.{◌↔◌, ◌⊎◌, inl, inr}
use Prim.Native.Nat.{ℕ, ◌≤◌, ◌<◌}
use mathlib.Core.Path.{◌≡◌, refl}
use mathlib.Core.Bool.{Bool, true, false, not, ◌&&◌, ◌||◌, false≢true}
use mathlib.Core.List.{List, [], ◌∷◌}
use native.Mathlib.Omega.{arith}
use diffuse.Prelude.Tests.{ltb, leb, ltb→lt, lt→ltb, leb→le}
use diffuse.Prelude.Lists.{any, Any}

pub and_iff :
    {a b : Bool} {P Q : Type 0} → (a ≡ true) ↔ P → (b ≡ true) ↔ Q → ((a && b) ≡ true) ↔ (P × Q)
and_iff {a = true} f g = (λ h. (f.0 refl, g.0 h), λ p. g.1 p.1)
and_iff {a = false} f g = (λ h. absurd (false≢true h), λ p. f.1 p.0)

pub or_iff :
    {a b : Bool} {P Q : Type 0} → (a ≡ true) ↔ P → (b ≡ true) ↔ Q → ((a || b) ≡ true) ↔ (P ⊎ Q)
or_iff {a = true} f g = (λ h. inl (f.0 refl), λ p. refl)
or_iff {a = false} f g =
    (λ h. inr (g.0 h), λ p. elim p [ inl x ↦ absurd (false≢true (f.1 x)) | inr y ↦ g.1 y ])

pub not_iff : {a : Bool} {P : Type 0} → (a ≡ true) ↔ P → (not a ≡ true) ↔ (¬ P)
not_iff {a = true} f = (λ h. absurd (false≢true h), λ n. absurd (n (f.0 refl)))
not_iff {a = false} f = (λ h p. false≢true (f.1 p), λ n. refl)

pub any_iff :
    {A : Type 0} (p : A → Bool) (P : A → Type 0) (xs : List A)
    → ((x : A) → (p x ≡ true) ↔ P x)
    → (any p xs ≡ true) ↔ Any P xs
any_iff p P [] f = (λ h. false≢true h, λ h. absurd h)
any_iff p P (x ∷ xs) f = or_iff (f x) (any_iff p P xs f)

pub ltb_iff : (a b : ℕ) → (ltb a b ≡ true) ↔ (a < b)
ltb_iff a b = (ltb→lt a b, lt→ltb a b)

pub leb_iff : (a b : ℕ) → (leb a b ≡ true) ↔ (a ≤ b)
leb_iff a b = (leb→le a b, λ h. ground arith)

-- The same with the parts grouped otherwise: `&&` groups to the left, a product to the right.
pub regroup : {X P Q : Type 0} → X ↔ P → (P → Q) → (Q → P) → X ↔ Q
regroup f to from = (λ x. to (f.0 x), λ q. f.1 (from q))
