-- ===== src/Json/Merge.antt =====
-- `Deserialize for Value` changes nothing where no map repeats a key.
use nostrd.Base.{◌≡◌, refl, ap, List, [], ◌∷◌, map}
use nostrd.Json.{Value, array, array_of, from_list, merge, merge_items}
use nostrd.Primitives.{HexType}

module _ {A : Type 0} (write : A → Value) (same : (a : A) → merge (write a) ≡ write a) where
  pub merge_items-map :
      (xs : List A) → merge_items (from_list (map write xs)) ≡ from_list (map write xs)
  unfolding merge from_list
  merge_items-map [] = refl
  merge_items-map (x ∷ xs) = rw (same x, merge_items-map xs)

  pub merge-array : (xs : List A) → merge (array_of (map write xs)) ≡ array_of (map write xs)
  unfolding merge
  merge-array xs = ap array (merge_items-map xs)

pub merge-to_value : (h : HexType) (a : h.Carrier) → merge (h.to_value a) ≡ h.to_value a
unfolding merge
merge-to_value h a = rw (h.to_value_lem a)
