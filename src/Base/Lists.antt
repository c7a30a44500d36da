-- ===== src/Base/Lists.antt =====
-- Lists measured by native numbers, `any` and `contains` as Boolean tests, and `HashSet` as a list
-- without repetitions.
use Prim.Native.Nat.{ℕ, zero, suc, ◌+◌}
use mathlib.Core.Bool.{Bool, true, false, ◌||◌}
use mathlib.Core.HLevel.{hedberg, ×_prop}
use mathlib.Core.List.{
  List, [], ◌∷◌, ◌++◌, Mem, mem-cons_self, mem-cons_of_mem, eq-or-mem_of_mem-cons, not-mem-nil,
  mem-cons, map,
}
use mathlib.Core.Logic.Or
use mathlib.Core.Logic.{◌↔◌, ◌∨₁◌, inl, inr}
use mathlib.Core.Option.{Option, none, some}
use mathlib.Core.Path.{◌≡◌}
use native.Mathlib.Omega.{arith}
use nostrd.Base.Tests.{if◌then◌else◌, eqb, eqb_iff, eqb_refl, Bool-cases}

Bool_discrete : Discrete Bool
Bool_discrete = hlevel

pub Bool-true-prop : (b : Bool) → IsProp (b ≡ true)
Bool-true-prop b = hedberg Bool_discrete b true

module _ {ℓ} {A : Type ℓ} where
  abbrev pub length : List A → ℕ
  length [] = 0
  length (x ∷ xs) = suc (length xs)

  abbrev pub get_elem? : List A → ℕ → Option A
  get_elem? [] i = none
  get_elem? (x ∷ xs) zero = some x
  get_elem? (x ∷ xs) (suc i) = get_elem? xs i

  pub length-append : (xs ys : List A) → length (xs ++ ys) ≡ length xs + length ys
  length-append [] ys = omega arith
  length-append (x ∷ xs) ys = omega (arith, length-append xs ys)

  abbrev pub is_empty : List A → Bool
  is_empty [] = true
  is_empty (x ∷ xs) = false

  -- `iter().any(p)`
  unfoldable pub any : (A → Bool) → List A → Bool
  any p [] = false
  any p (x ∷ xs) = p x || any p xs

  -- `iter().filter(p).collect()`
  unfoldable pub keep : (A → Bool) → List A → List A
  keep p [] = []
  keep p (x ∷ xs) = let rest = keep p xs in if p x then x ∷ rest else rest

  pub mem-any : (p : A → Bool) (xs : List A) → any p xs ≡ true → (x : A) × Mem x xs × (p x ≡ true)
  unfolding any
  mem-any p [] h = ground arith
  mem-any p (x ∷ xs) h = elim (Bool-cases (p x)) [
    | inl now ↦ (x, mem-cons_self, now)
    | inr later ↦ let (y, m, e) = mem-any p xs (rw later at h) in (y, mem-cons_of_mem x m, e)
  ]

  pub any-mem : (p : A → Bool) (xs : List A) {x : A} → Mem x xs → p x ≡ true → any p xs ≡ true
  unfolding any
  any-mem p [] m h = absurd (not-mem-nil m)
  any-mem p (y ∷ xs) {x} m h =
      Or.elim (Bool-true-prop _) (eq-or-mem_of_mem-cons m)
        (λ (e : x ≡ y). let now : p y ≡ true = rw (← e) h in rw now)
        (λ (m' : Mem x xs). let rest : any p xs ≡ true = any-mem p xs m' h in ground arith)

  mem_of_mem-keep :
      (p : A → Bool) (xs : List A) {x : A} → Mem x (keep p xs) → Mem x xs × (p x ≡ true)
  unfolding keep
  mem_of_mem-keep p [] m = absurd (not-mem-nil m)
  mem_of_mem-keep p (y ∷ xs) {x} m = elim (Bool-cases (p y)) [
    | inl kept ↦
        Or.elim (×_prop squash₁ (Bool-true-prop _)) (eq-or-mem_of_mem-cons (rw kept at m))
          (λ (e : x ≡ y). (rw e mem-cons_self, rw e kept))
          (λ (m' : Mem x (keep p xs)).
            let (r, h) = mem_of_mem-keep p xs m' in (mem-cons_of_mem y r, h))
    | inr dropped ↦ let (r, h) = mem_of_mem-keep p xs (rw dropped at m) in (mem-cons_of_mem y r, h)
  ]

  mem-keep_of_mem : (p : A → Bool) (xs : List A) {x : A} → Mem x xs → p x ≡ true → Mem x (keep p xs)
  unfolding keep
  mem-keep_of_mem p [] m h = absurd (not-mem-nil m)
  mem-keep_of_mem p (y ∷ xs) {x} m h =
      Or.elim squash₁ (eq-or-mem_of_mem-cons m)
        (λ (e : x ≡ y). let now : p y ≡ true = rw (← e) h in rw now (rw e mem-cons_self))
        (λ (m' : Mem x xs).
          let r : Mem x (keep p xs) = mem-keep_of_mem p xs m' h in
          elim (Bool-cases (p y)) [
            | inl kept ↦ rw kept (mem-cons_of_mem y r)
            | inr dropped ↦ rw dropped r
          ])

  -- Filtering keeps exactly the elements that pass.
  pub mem-keep :
      (p : A → Bool) (xs : List A) (x : A) → Mem x (keep p xs) ↔ (Mem x xs × (p x ≡ true))
  mem-keep p xs x = (mem_of_mem-keep p xs, λ h. mem-keep_of_mem p xs h.0 h.1)

module _ {ℓ} {A : Type ℓ} (dec : Discrete A) where
  -- `Vec::contains`
  unfoldable pub contains : A → List A → Bool
  contains a xs = any (eqb dec a) xs

  pub contains_iff : (a : A) (xs : List A) → (contains a xs ≡ true) ↔ Mem a xs
  unfolding contains
  contains_iff a xs = (
    λ h. let (x, m, e) = mem-any (eqb dec a) xs h in rw ((eqb_iff dec a x).0 e) m,
    λ m. any-mem (eqb dec a) xs m (eqb_refl dec a),
  )

  -- `HashSet::insert`
  unfoldable pub set_insert : A → List A → List A
  set_insert a xs = if contains a xs then xs else a ∷ xs

  -- `collect::<HashSet<_>>()` and `HashSet::extend`, over the elements in order
  unfoldable pub set_extend : List A → List A → List A
  set_extend s [] = s
  set_extend s (x ∷ xs) = set_extend (set_insert x s) xs

  mem-set_insert : (a : A) (xs : List A) (x : A) → Mem x (set_insert a xs) ↔ ((x ≡ a) ∨₁ Mem x xs)
  unfolding set_insert
  mem-set_insert a xs x = elim (Bool-cases (contains a xs)) [
    | inl old ↦ rw old (
      Or.inr,
      λ d.
          Or.elim squash₁ d (λ (e : x ≡ a). rw e ((contains_iff a xs).0 old)) (λ (m : Mem x xs). m),
    )
    | inr new ↦ rw new (eq-or-mem_of_mem-cons, mem-cons.1)
  ]

  -- A set holds what was put in it, and nothing else.
  pub mem-set_extend : (xs s : List A) (x : A) → Mem x (set_extend s xs) ↔ (Mem x xs ∨₁ Mem x s)
  unfolding set_extend
  mem-set_extend [] s x =
      (Or.inr, λ d. Or.elim squash₁ d (λ m. absurd (not-mem-nil m)) (λ (m : Mem x s). m))
  mem-set_extend (y ∷ xs) s x = (
    λ m.
        Or.elim squash₁ ((mem-set_extend xs (set_insert y s) x).0 m)
          (λ (r : Mem x xs). Or.inl (mem-cons_of_mem y r))
          (λ (r : Mem x (set_insert y s)).
            Or.elim squash₁ ((mem-set_insert y s x).0 r)
              (λ (e : x ≡ y). Or.inl (rw e mem-cons_self)) (λ (q : Mem x s). Or.inr q)),
    λ d. (mem-set_extend xs (set_insert y s) x).1 (
        Or.elim squash₁ d
          (λ (m : Mem x (y ∷ xs)).
            Or.elim squash₁ (eq-or-mem_of_mem-cons m)
              (λ (e : x ≡ y). Or.inr ((mem-set_insert y s x).1 (Or.inl e)))
              (λ (r : Mem x xs). Or.inl r))
          (λ (q : Mem x s). Or.inr ((mem-set_insert y s x).1 (Or.inr q)))),
  )

-- A predicate on every item.
abbrev pub All {ℓ κ} : {A : Type ℓ} → (A → Type κ) → List A → Type κ
All P [] = Unit
All P (x ∷ xs) = P x × All P xs

module _ {ℓ κ} {A : Type ℓ} (P : A → Type κ) where
  pub All-append : (xs ys : List A) → All P xs → All P ys → All P (xs ++ ys)
  All-append [] ys hx hy = hy
  All-append (x ∷ xs) ys (h, hx) hy = (h, All-append xs ys hx hy)

  pub All-append_right : (xs ys : List A) → All P (xs ++ ys) → All P ys
  All-append_right [] ys h = h
  All-append_right (x ∷ xs) ys (here, h) = All-append_right xs ys h

  pub All-imp {μ} : (Q : A → Type μ) → ((a : A) → P a → Q a) → (xs : List A) → All P xs → All Q xs
  All-imp Q f [] h = tt
  All-imp Q f (x ∷ xs) (here, h) = (f x here, All-imp Q f xs h)

  -- Of a member, into a proposition.
  pub All-mem :
      {B : Type ℓ} → IsProp B → (xs : List A) (a : A) → All P xs → Mem a xs → (P a → B) → B
  All-mem prop [] a h m f = absurd (not-mem-nil m)
  All-mem prop (x ∷ xs) a (head, h) m f =
      Or.elim prop (eq-or-mem_of_mem-cons m) (λ (same : a ≡ x). f (rw same head))
        (λ (behind : Mem a xs). All-mem prop xs a h behind f)

  pub All-of_all : ((a : A) → P a) → (xs : List A) → All P xs
  All-of_all f [] = tt
  All-of_all f (x ∷ xs) = (f x, All-of_all f xs)

pub All-both {ℓ κ μ} :
    {A : Type ℓ} (P : A → Type κ) (Q : A → Type μ) (xs : List A)
    → All P xs
    → All Q xs
    → All (λ a. P a × Q a) xs
All-both P Q [] p q = tt
All-both P Q (x ∷ xs) (here, p) (there, q) = ((here, there), All-both P Q xs p q)

pub All-map {ℓ κ μ} :
    {A : Type ℓ} {B : Type κ} (P : B → Type μ) (f : A → B) (xs : List A)
    → All (λ a. P (f a)) xs
    → All P (map f xs)
All-map P f [] h = tt
All-map P f (x ∷ xs) (here, h) = (here, All-map P f xs h)
