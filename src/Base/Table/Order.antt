-- ===== src/Base/Table/Order.antt =====
-- `HashMap`: what is read from a table does not depend on the order of its entries.
use mathlib.Core.List.{Permᴰ}
use mathlib.Core.List.Permᴰ
use nostrd.Base.{
  ◌≡◌, refl, sym, ap, ◌∙◌, suc, none, List, [], ◌∷◌, false, arith, length, eqb, Bool-cases, inl,
  inr, eqb_iff,
}
use nostrd.Base.Table.{get, has, remove, insert, IsDistinct}

module _ {ℓ} {A : Type ℓ} where
  pub length-perm : {xs ys : List A} → Permᴰ xs ys → length xs ≡ length ys
  length-perm Permᴰ.nil = refl
  length-perm (Permᴰ.cons e d) = ap suc (length-perm d)
  length-perm (Permᴰ.swap e f) = refl
  length-perm (Permᴰ.trans d d') = length-perm d ∙ length-perm d'

module _ {K V : Type 0} (dec : Discrete K) where
  get-swap :
      (k : K) (a b : K × V) (m : List (K × V))
      → get dec a.0 (b ∷ m) ≡ none
      → get dec k (a ∷ b ∷ m) ≡ get dec k (b ∷ a ∷ m)
  unfolding get
  get-swap k a b m apart = ground arith

  IsDistinct-swap :
      (a b : K × V) (m : List (K × V)) → IsDistinct dec (a ∷ b ∷ m) → IsDistinct dec (b ∷ a ∷ m)
  unfolding get
  IsDistinct-swap a b m (first, (second, rest)) =
      let absent : get dec a.0 m ≡ none = ground (arith, eqb_iff dec b.0 a.0) in
      let apart : eqb dec b.0 a.0 ≡ false = ground arith in
      let apart' : eqb dec a.0 b.0 ≡ false =
        ground (arith, eqb_iff dec b.0 a.0, eqb_iff dec a.0 b.0) in
      (rw apart' second, (absent, rest))

  get-cons :
      (k : K) (a : K × V) (m m' : List (K × V))
      → get dec k m ≡ get dec k m'
      → get dec k (a ∷ m) ≡ get dec k (a ∷ m')
  unfolding get
  get-cons k a m m' h = rw h refl

  perm-both :
      {m m' : List (K × V)}
      → Permᴰ m m'
      → IsDistinct dec m
      → ((k : K) → get dec k m ≡ get dec k m') × IsDistinct dec m'
  perm-both Permᴰ.nil h = (λ k. refl, h)
  perm-both (Permᴰ.cons {a} {b} {l₁} {l₂} e d) (absent, h) =
      let (same, h') = perm-both d h in
      rw (← e) (λ k. get-cons k a l₁ l₂ (same k), (sym (same a.0) ∙ absent, h'))
  perm-both (Permᴰ.swap {a} {b} {a'} {b'} {l} e f) h =
      rw (← e, ← f) (λ k. get-swap k a b l h.0, IsDistinct-swap a b l h)
  perm-both (Permᴰ.trans d d') h =
      let (same, h') = perm-both d h in
      let (same', h'') = perm-both d' h' in (λ k. same k ∙ same' k, h'')

  pub perm-IsDistinct : {m m' : List (K × V)} → Permᴰ m m' → IsDistinct dec m → IsDistinct dec m'
  perm-IsDistinct d h = (perm-both d h).1

  -- A table with its entries in another order has the same values.
  pub get-perm :
      (k : K) {m m' : List (K × V)} → Permᴰ m m' → IsDistinct dec m → get dec k m ≡ get dec k m'
  get-perm k d h = (perm-both d h).0 k

  pub has-perm :
      (k : K) {m m' : List (K × V)} → Permᴰ m m' → IsDistinct dec m → has dec k m ≡ has dec k m'
  unfolding has
  has-perm k d h = rw (get-perm k d h, has) refl

  remove-swap :
      (k : K) (a b : K × V) (m : List (K × V))
      → Permᴰ (remove dec k (a ∷ b ∷ m)) (remove dec k (b ∷ a ∷ m))
  unfolding remove
  remove-swap k a b m = elim (Bool-cases (eqb dec a.0 k)) [
    | inl p ↦ elim (Bool-cases (eqb dec b.0 k)) [
      | inl q ↦ rw (p, q) (Permᴰ.refl (remove dec k m))
      | inr q ↦ rw (p, q) (Permᴰ.refl (b ∷ remove dec k m))
    ]
    | inr p ↦ elim (Bool-cases (eqb dec b.0 k)) [
      | inl q ↦ rw (p, q) (Permᴰ.refl (a ∷ remove dec k m))
      | inr q ↦ rw (p, q) (Permᴰ.swap refl refl)
    ]
  ]

  remove-cons :
      (k : K) (a : K × V) (m m' : List (K × V))
      → Permᴰ (remove dec k m) (remove dec k m')
      → Permᴰ (remove dec k (a ∷ m)) (remove dec k (a ∷ m'))
  unfolding remove
  remove-cons k a m m' d = elim (Bool-cases (eqb dec a.0 k)) [
    | inl p ↦ rw p d
    | inr p ↦ rw p (Permᴰ.cons refl d)
  ]

  pub remove-perm :
      (k : K) {m m' : List (K × V)} → Permᴰ m m' → Permᴰ (remove dec k m) (remove dec k m')
  remove-perm k Permᴰ.nil = Permᴰ.refl (remove dec k [])
  remove-perm k (Permᴰ.cons {a} {b} {l₁} {l₂} e d) = rw e (remove-cons k b l₁ l₂ (remove-perm k d))
  remove-perm k (Permᴰ.swap {a} {b} {a'} {b'} {l} e f) = rw (e, f) (remove-swap k b' a' l)
  remove-perm k (Permᴰ.trans d d') = Permᴰ.trans (remove-perm k d) (remove-perm k d')

  pub insert-perm :
      (k : K) (v : V) {m m' : List (K × V)}
      → Permᴰ m m'
      → Permᴰ (insert dec k v m) (insert dec k v m')
  unfolding insert
  insert-perm k v d = Permᴰ.cons refl (remove-perm k d)
