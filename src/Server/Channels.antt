-- ===== src/Server/Channels.antt =====
-- main.rs: the channels in the table of running queries.
use nostrd.Base.{
  ℕ, ◌==◌, ◌≡◌, String, String_discrete, some, List, [], ◌∷◌, Bool, true, false, ◌||◌, any, eqb,
  arith, Bool-cases, inl, inr,
}
use nostrd.Base.Table.{get, remove}

-- a channel is that of some entry
abbrev pub holds : ℕ → List (String × ℕ) → Bool
holds c table = any (λ e. e.1 == c) table

-- no channel twice
abbrev pub IsApart : List (String × ℕ) → Type 0
IsApart [] = Unit
IsApart (e ∷ table) = (holds e.1 table ≡ false) × IsApart table

pub get-holds :
    (k : String) (c : ℕ) (table : List (String × ℕ))
    → get String_discrete k table ≡ some c
    → holds c table ≡ true
unfolding get any
get-holds k c [] h = absurd (cc h)
get-holds k c ((j, v) ∷ table) h = elim (Bool-cases (eqb String_discrete j k)) [
  | inl here ↦
      let found : some v ≡ some c = rw here at h in
      let same : v ≡ c = cc found in ground (arith, same)
  | inr other ↦ ground (arith, get-holds k c table (rw other at h))
]

pub holds-remove :
    (k : String) (c : ℕ) (table : List (String × ℕ))
    → holds c (remove String_discrete k table) ≡ true
    → holds c table ≡ true
unfolding remove any
holds-remove k c [] h = h
holds-remove k c ((j, v) ∷ table) h = elim (Bool-cases (eqb String_discrete j k)) [
  | inl here ↦ ground (arith, holds-remove k c table (rw here at h))
  | inr other ↦
      let split : ((v == c) || holds c (remove String_discrete k table)) ≡ true = rw other at h in
      elim (Bool-cases (v == c)) [
        | inl same ↦ ground (arith, same)
        | inr apart ↦ ground (arith, holds-remove k c table (ground (arith, split, apart)))
      ]
]

pub not_held-remove :
    (k : String) (c : ℕ) (table : List (String × ℕ))
    → holds c table ≡ false
    → holds c (remove String_discrete k table) ≡ false
not_held-remove k c table h = elim (Bool-cases (holds c (remove String_discrete k table))) [
  | inl there ↦ let before = holds-remove k c table there in absurd (cc (before, h))
  | inr gone ↦ gone
]

pub IsApart-remove :
    (k : String) (table : List (String × ℕ))
    → IsApart table
    → IsApart (remove String_discrete k table)
unfolding remove
IsApart-remove k [] h = tt
IsApart-remove k ((j, v) ∷ table) (first, h) = elim (Bool-cases (eqb String_discrete j k)) [
  | inl here ↦ rw here (IsApart-remove k table h)
  | inr other ↦ rw other (not_held-remove k v table first, IsApart-remove k table h)
]

-- the channel of a key goes with the key
pub remove-gone :
    (k : String) (c : ℕ) (table : List (String × ℕ))
    → IsApart table
    → get String_discrete k table ≡ some c
    → holds c (remove String_discrete k table) ≡ false
unfolding remove get any
remove-gone k c [] h found = absurd (cc found)
remove-gone k c ((j, v) ∷ table) (first, h) found = elim (Bool-cases (eqb String_discrete j k)) [
  | inl here ↦
      let it : some v ≡ some c = rw here at found in
      let same : v ≡ c = cc it in rw here (not_held-remove k c table (rw (← same) first))
  | inr other ↦
      let behind : get String_discrete k table ≡ some c = rw other at found in
      let rest = remove-gone k c table h behind in
      let there = get-holds k c table behind in
      elim (Bool-cases (v == c)) [
        | inl same ↦
            let it : v ≡ c = ground (arith, same) in
            let held : holds v table ≡ true = rw it there in absurd (cc (held, first))
        | inr apart ↦ rw (other, apart) rest
      ]
]
