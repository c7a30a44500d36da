-- ===== src/Base/Tests.antt =====
-- Boolean tests on the native numbers and on types with decidable equality, the conditional, and
-- the case lemmas that split on a computed value.
use Prim.Native.Nat.{ℕ, ◌<◌, compare, Ordering}
use Prim.Native.String.{String}
use mathlib.Core.Path.{◌≡◌, refl}
use mathlib.Core.Logic.{◌↔◌, ◌⊎◌, inl, inr}
use mathlib.Core.Bool.{Bool, true, false}
use mathlib.Core.Option.{Option, none, some}
use native.Mathlib.Omega.{arith}
use text.Mathlib.Text.{◌==◌ as str_eq}
use text.Mathlib.TextEquality.{eq_iff}

abbrev pub ltb : ℕ → ℕ → Bool
ltb a b = elim (compare a b) [ Ordering.lt ↦ true | _ ↦ false ]

abbrev pub leb : ℕ → ℕ → Bool
leb a b = elim (compare a b) [ Ordering.gt ↦ false | _ ↦ true ]

infix 50 ◌==◌
abbrev pub ◌==◌ : ℕ → ℕ → Bool
a == b = elim (compare a b) [ Ordering.eq ↦ true | _ ↦ false ]

infix 1 if◌then◌else◌
abbrev pub if◌then◌else◌ {ℓ} : {A : Type ℓ} → Bool → A → A → A
if true then x else y = x
if false then x else y = y

-- The test of a decision.
abbrev pub holds {ℓ} : {P : Type ℓ} → Dec P → Bool
holds (yes _) = true
holds (no _) = false

-- `==` of a type with decidable equality.
abbrev pub eqb {ℓ} : {A : Type ℓ} → Discrete A → A → A → Bool
eqb dec a b = holds (dec a b)

pub eqb_iff {ℓ} : {A : Type ℓ} (dec : Discrete A) (a b : A) → (eqb dec a b ≡ true) ↔ (a ≡ b)
eqb_iff dec a b = ground arith

pub eqb_refl {ℓ} : {A : Type ℓ} (dec : Discrete A) (a : A) → eqb dec a a ≡ true
eqb_refl dec a = (eqb_iff dec a a).1 refl

-- To split on a computed value and keep the equation.
pub Bool-cases : (b : Bool) → (b ≡ true) ⊎ (b ≡ false)
Bool-cases true = inl refl
Bool-cases false = inr refl

pub Option-cases {ℓ} : {A : Type ℓ} (o : Option A) → (o ≡ none) ⊎ ((a : A) × (o ≡ some a))
Option-cases none = inl refl
Option-cases (some a) = inr (a, refl)

pub ltb_iff : (a b : ℕ) → (ltb a b ≡ true) ↔ (a < b)
ltb_iff a b = ground arith

-- The tests by which two Boolean values agree.
pub Bool_ext : (a b : Bool) → ((a ≡ true) ↔ (b ≡ true)) → a ≡ b
Bool_ext true b h = ground (arith, h.0 refl)
Bool_ext false true h = h.1 refl
Bool_ext false false h = refl

String_dec_by : (s t : String) → (b : Bool) → ((b ≡ true) ↔ (s ≡ t)) → Dec (s ≡ t)
String_dec_by s t true h = yes (h.0 refl)
String_dec_by s t false h = no (λ p. ground (arith, h.1 p))

unfoldable pub String_discrete : Discrete String
unfolding String_dec_by
String_discrete s t = String_dec_by s t (str_eq s t) (eq_iff s t)
