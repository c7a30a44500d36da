-- ===== src/Base/Outcome.antt =====
-- What a run of Rust code ends in: `Ok`, `Err`, or a panic that unwinds its task.
use Prim.Native.Nat.{ℕ}
use mathlib.Core.List.{List, [], ◌∷◌, map}
use mathlib.Core.Logic.{◌≢◌, ◌⊎◌, inl, inr}
use mathlib.Core.Option.{Option, none, some}
use mathlib.Core.Path.{◌≡◌, refl}
use native.Mathlib.Omega.{arith}
use nostrd.Base.Lists.{get_elem?}

pub data Outcome {ℓ} (E A : Type ℓ) : Type ℓ where
  ok : A → Outcome E A
  err : E → Outcome E A
  panic : Outcome E A

infixl 5 ◌>>=◌ ◌>>◌
-- `?`
abbrev pub ◌>>=◌ {ℓ} : {E A B : Type ℓ} → Outcome E A → (A → Outcome E B) → Outcome E B
ok a >>= f = f a
err e >>= f = err e
panic >>= f = panic

abbrev pub ◌>>◌ {ℓ} : {E A B : Type ℓ} → Outcome E A → Outcome E B → Outcome E B
m >> k = m >>= λ _. k

-- `map_err`
abbrev pub map_err {ℓ} : {E F A : Type ℓ} → (E → F) → Outcome E A → Outcome F A
map_err f (ok a) = ok a
map_err f (err e) = err (f e)
map_err f panic = panic

-- A library's result, its error converted by `f`. The libraries do not panic.
abbrev pub lift {ℓ} : {E F A : Type ℓ} → (E → F) → E ⊎ A → Outcome F A
lift f (inl e) = err (f e)
lift f (inr a) = ok a

-- `Option::ok_or`
abbrev pub ok_or {ℓ} : {E A : Type ℓ} → E → Option A → Outcome E A
ok_or e none = err e
ok_or e (some a) = ok a

-- `values[i]` panics out of bounds.
abbrev pub index {ℓ} : {E A : Type ℓ} → List A → ℕ → Outcome E A
index xs i = elim (get_elem? xs i) [ none ↦ panic | some x ↦ ok x ]

-- `iter().map(f).collect::<Result<Vec<_>, _>>()`: the first error ends it.
unfoldable pub collect {ℓ} : {E A B : Type ℓ} → (A → Outcome E B) → List A → Outcome E (List B)
collect f [] = ok []
collect f (x ∷ xs) = do y ← f x; ys ← collect f xs; ok (y ∷ ys)

-- Inversion of a successful step.
pub >>=-eq-ok {ℓ} :
    {E A B : Type ℓ} (first : Outcome E A) (next : A → Outcome E B) {result : B}
    → (first >>= next) ≡ ok result
    → (between : A) × (first ≡ ok between) × (next between ≡ ok result)
>>=-eq-ok panic next ends = cc
>>=-eq-ok (err e) next ends = cc
>>=-eq-ok (ok a) next ends = (a, refl, ends)

-- Reading back what was written element by element.
pub collect-map {ℓ} :
    {E A B : Type ℓ} (write : A → B) (read : B → Outcome E A)
    → ((a : A) → read (write a) ≡ ok a)
    → (xs : List A) → collect read (map write xs) ≡ ok xs
unfolding collect
collect-map write read h [] = refl
collect-map write read h (x ∷ xs) = rw (h x, collect-map write read h xs)

-- Reading element by element panics only if one element does.
pub collect-no_panic {ℓ} :
    {E A B : Type ℓ} (f : A → Outcome E B)
    → ((a : A) → f a ≢ panic)
    → (xs : List A) → collect f xs ≢ panic
unfolding collect
collect-no_panic f h [] = λ e. cc
collect-no_panic f h (x ∷ xs) = λ e. ground (arith, h x, collect-no_panic f h xs)

-- A step that does not panic, followed by one that never does.
pub bind-no_panic {ℓ} :
    {E A B : Type ℓ} (m : Outcome E A) (f : A → Outcome E B)
    → m ≢ panic
    → ((a : A) → f a ≢ panic)
    → (m >>= f) ≢ panic
bind-no_panic (ok a) f h k = k a
bind-no_panic (err e) f h k = λ p. cc
bind-no_panic panic f h k = λ p. h refl

pub map_err-no_panic {ℓ} :
    {E F A : Type ℓ} (f : E → F) (m : Outcome E A) → m ≢ panic → map_err f m ≢ panic
map_err-no_panic f (ok a) h = λ p. cc
map_err-no_panic f (err e) h = λ p. cc
map_err-no_panic f panic h = λ p. h refl

pub lift-no_panic {ℓ} : {E F A : Type ℓ} (f : E → F) (r : E ⊎ A) → lift f r ≢ panic
lift-no_panic f (inl e) = λ p. cc
lift-no_panic f (inr a) = λ p. cc

-- Inversions of what succeeds.
pub map_err-eq-ok {ℓ} :
    {E F A : Type ℓ} (f : E → F) (m : Outcome E A) {a : A} → map_err f m ≡ ok a → m ≡ ok a
map_err-eq-ok f (ok a) h = cc h
map_err-eq-ok f (err e) h = cc h
map_err-eq-ok f panic h = cc h
