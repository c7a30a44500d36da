-- ===== src/Base/Table.antt =====
-- `HashMap` as an association list with distinct keys, the entry that was set last in front.
pub mod Order
use nostrd.Base.{
  ◌≤◌, ◌<◌, ◌≡◌, refl, Option, none, some, List, [], ◌∷◌, Bool, true, false, arith, length, eqb,
  if◌then◌else◌,
}

module _ {ℓ} {K V : Type ℓ} (dec : Discrete K) where
  unfoldable pub get : K → List (K × V) → Option V
  get k [] = none
  get k ((j, v) ∷ m) = if eqb dec j k then some v else get k m

  -- `contains_key`
  unfoldable pub has : K → List (K × V) → Bool
  has k m = elim (get k m) [ none ↦ false | some _ ↦ true ]

  unfoldable pub remove : K → List (K × V) → List (K × V)
  remove k [] = []
  remove k ((j, v) ∷ m) = let rest = remove k m in if eqb dec j k then rest else (j, v) ∷ rest

  -- A key that is there gets the new value.
  unfoldable pub insert : K → V → List (K × V) → List (K × V)
  insert k v m = (k, v) ∷ remove k m

  -- No key stands twice.
  abbrev pub IsDistinct : List (K × V) → Type ℓ
  IsDistinct [] = Unit
  IsDistinct ((k, v) ∷ m) = (get k m ≡ none) × IsDistinct m

  pub get-remove :
      (k j : K) (m : List (K × V)) → get j (remove k m) ≡ (if eqb dec k j then none else get j m)
  unfolding get remove
  get-remove k j [] = ground arith
  get-remove k j ((i, v) ∷ m) = ground (arith, get-remove k j m)

  pub get-insert :
      (k j : K) (v : V) (m : List (K × V))
      → get j (insert k v m) ≡ (if eqb dec k j then some v else get j m)
  unfolding get insert
  get-insert k j v m = ground (arith, get-remove k j m)

  pub length-remove-le : (k : K) (m : List (K × V)) → length (remove k m) ≤ length m
  unfolding remove
  length-remove-le k [] = omega arith
  length-remove-le k ((j, v) ∷ m) = ground (arith, length-remove-le k m)

  pub length-remove-lt :
      (k : K) (m : List (K × V)) → has k m ≡ true → length (remove k m) < length m
  unfolding has get remove
  length-remove-lt k [] h = ground arith
  length-remove-lt k ((j, v) ∷ m) h = ground (arith, length-remove-le k m, length-remove-lt k m)

  pub remove-IsDistinct : (k : K) (m : List (K × V)) → IsDistinct m → IsDistinct (remove k m)
  unfolding remove
  remove-IsDistinct k [] d = d
  remove-IsDistinct k ((j, v) ∷ m) d = ground (arith, get-remove k j m, remove-IsDistinct k m d.1)

  pub insert-IsDistinct :
      (k : K) (v : V) (m : List (K × V)) → IsDistinct m → IsDistinct (insert k v m)
  unfolding insert
  insert-IsDistinct k v m d =
      let absent : get k (remove k m) ≡ none = ground (arith, get-remove k k m) in
      (absent, remove-IsDistinct k m d)

  -- A removal that finds nothing changes nothing.
  pub remove_absent : (k : K) (m : List (K × V)) → get k m ≡ none → remove k m ≡ m
  unfolding get remove
  remove_absent k [] h = refl
  remove_absent k ((j, v) ∷ m) h = ground (arith, remove_absent k m)

  pub has-remove :
      (k j : K) (m : List (K × V)) → has j (remove k m) ≡ (if eqb dec k j then false else has j m)
  unfolding has
  has-remove k j m = ground (arith, get-remove k j m)

  pub has-insert :
      (k j : K) (v : V) (m : List (K × V))
      → has j (insert k v m) ≡ (if eqb dec k j then true else has j m)
  unfolding has
  has-insert k j v m = ground (arith, get-insert k j v m)
