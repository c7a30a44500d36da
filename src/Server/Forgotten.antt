-- ===== src/Server/Forgotten.antt =====
-- main.rs: which channels of queries are known, and which were sent the message to stop.
use nostrd.Base.{
  ℕ, ◌==◌, ◌<◌, ◌≡◌, ◌⊎◌, refl, String, String_discrete, Option, none, some, List, [], ◌∷◌, true,
  false, any, arith, Bool-cases, inl, inr,
}
use nostrd.Base.Table.{get, insert, remove}
use nostrd.Primitives.{Primitives}
use nostrd.Server.{Session, stop_query}
use nostrd.Server.Queries.{any-append, told}
use nostrd.Server.Channels.{
  holds, IsApart, get-holds, holds-remove, not_held-remove, IsApart-remove, remove-gone,
}
use nostrd.Server.Changes.{Changes, kept, started, closed}

module _ ⦃lib : Primitives⦄ where
  -- The channels of the running queries are different, were made before, and no message to stop was
  -- sent on them; it was sent only on channels that were made before.
  pub record IsExclusive (s : Session) : Type 0 where
    pub apart : IsApart s.running_queries
    pub below : (c : ℕ) → holds c s.running_queries ≡ true → c < s.next_channel
    pub silent : (c : ℕ) → holds c s.running_queries ≡ true → told c s.stopped ≡ false
    pub past : (c : ℕ) → told c s.stopped ≡ true → c < s.next_channel

  -- a channel that is no longer known, and on which no message to stop was sent
  pub record IsForgotten (c : ℕ) (s : Session) : Type 0 where
    pub passed : c < s.next_channel
    pub gone : holds c s.running_queries ≡ false
    pub untold : told c s.stopped ≡ false

  told-stop_query :
      (c : ℕ) (o : Option ℕ) (stopped : List ℕ)
      → told c (stop_query o stopped) ≡ true
      → (told c stopped ≡ true) ⊎ (o ≡ some c)
  unfolding any
  told-stop_query c none stopped h = inl h
  told-stop_query c (some v) stopped h = elim (Bool-cases (v == c)) [
    | inl here ↦ let it : v ≡ c = ground (arith, here) in inr (rw it refl)
    | inr other ↦ inl (ground (arith, any-append (λ (d : ℕ). d == c) stopped (v ∷ []), h, other))
  ]

  holds-insert :
      (c d : ℕ) (key : String) (table : List (String × ℕ))
      → holds c (insert String_discrete key d table) ≡ true
      → (d ≡ c) ⊎ (holds c table ≡ true)
  unfolding insert any
  holds-insert c d key table h = elim (Bool-cases (d == c)) [
    | inl here ↦ inl (ground (arith, here))
    | inr other ↦ inr (holds-remove key c table (rw other at h))
  ]

  pub fresh-holds : (s : Session) → IsExclusive s → holds s.next_channel s.running_queries ≡ false
  fresh-holds s h = elim (Bool-cases (holds s.next_channel s.running_queries)) [
    | inl there ↦ let late = h.below s.next_channel there in absurd (omega (arith, late))
    | inr absent ↦ absent
  ]

  pub fresh-told : (s : Session) → IsExclusive s → told s.next_channel s.stopped ≡ false
  fresh-told s h = elim (Bool-cases (told s.next_channel s.stopped)) [
    | inl there ↦ let late = h.past s.next_channel there in absurd (omega (arith, late))
    | inr absent ↦ absent
  ]

  closed-silent :
      (s : Session) (key : String) (c : ℕ)
      → IsExclusive s
      → holds c (remove String_discrete key s.running_queries) ≡ true
      → told c (stop_query (get String_discrete key s.running_queries) s.stopped) ≡ false
  closed-silent s key c h held =
      elim (Bool-cases
        (told c (stop_query (get String_discrete key s.running_queries) s.stopped))) [
          | inr not ↦ not
          | inl is_told ↦ elim (told-stop_query c _ s.stopped is_told) [
            | inl before ↦
                let never = h.silent c (holds-remove key c s.running_queries held) in
                absurd (cc (before, never))
            | inr found ↦
                let gone = remove-gone key c s.running_queries h.apart found in
                absurd (cc (held, gone))
          ]
        ]

  pub Changes-IsExclusive : (s s' : Session) → Changes s s' → IsExclusive s → IsExclusive s'
  unfolding insert
  Changes-IsExclusive s s' (kept r t n) h = record {
    apart = rw r h.apart;
    below = λ c held. omega (arith, n, h.below c (rw r at held));
    silent = λ c held. rw t (h.silent c (rw r at held));
    past = λ c is_told. omega (arith, n, h.past c (rw t at is_told));
  }
  Changes-IsExclusive s s' (started key r t n) h = record {
    apart = rw r (
      not_held-remove key s.next_channel s.running_queries (fresh-holds s h),
      IsApart-remove key s.running_queries h.apart,
    );
    below = λ c held. elim (holds-insert c s.next_channel key s.running_queries (rw r at held)) [
      | inl new ↦ omega (arith, n, new)
      | inr old ↦ omega (arith, n, h.below c old)
    ];
    silent = λ c held. elim (holds-insert c s.next_channel key s.running_queries (rw r at held)) [
      | inl new ↦ rw (t, ← new) (fresh-told s h)
      | inr old ↦ rw t (h.silent c old)
    ];
    past = λ c is_told. omega (arith, n, h.past c (rw t at is_told));
  }
  Changes-IsExclusive s s' (closed key r t n) h = record {
    apart = rw r (IsApart-remove key s.running_queries h.apart);
    below = λ c held. rw n (h.below c (holds-remove key c s.running_queries (rw r at held)));
    silent = λ c held. rw t (closed-silent s key c h (rw r at held));
    past = λ c is_told. elim (told-stop_query c _ s.stopped (rw t at is_told)) [
      | inl before ↦ rw n (h.past c before)
      | inr found ↦ rw n (h.below c (get-holds key c s.running_queries found))
    ];
  }

  not_held-insert :
      (c d : ℕ) (key : String) (table : List (String × ℕ))
      → c < d
      → holds c table ≡ false
      → holds c (insert String_discrete key d table) ≡ false
  not_held-insert c d key table order absent =
      elim (Bool-cases (holds c (insert String_discrete key d table))) [
        | inr not ↦ not
        | inl there ↦ elim (holds-insert c d key table there) [
          | inl equal ↦ absurd (omega (arith, order, equal))
          | inr old ↦ absurd (cc (old, absent))
        ]
      ]

  closed-untold :
      (s : Session) (key : String) (c : ℕ)
      → IsForgotten c s
      → told c (stop_query (get String_discrete key s.running_queries) s.stopped) ≡ false
  closed-untold s key c h =
      elim (Bool-cases
        (told c (stop_query (get String_discrete key s.running_queries) s.stopped))) [
          | inr not ↦ not
          | inl is_told ↦ elim (told-stop_query c _ s.stopped is_told) [
            | inl before ↦ absurd (cc (before, h.untold))
            | inr found ↦
                let there = get-holds key c s.running_queries found in absurd (cc (there, h.gone))
          ]
        ]

  pub Changes-IsForgotten :
      (c : ℕ) (s s' : Session) → Changes s s' → IsForgotten c s → IsForgotten c s'
  Changes-IsForgotten c s s' (kept r t n) h = record {
    passed = omega (arith, n, h.passed);
    gone = rw r h.gone;
    untold = rw t h.untold;
  }
  Changes-IsForgotten c s s' (started key r t n) h = record {
    passed = omega (arith, n, h.passed);
    gone = rw r (not_held-insert c s.next_channel key s.running_queries h.passed h.gone);
    untold = rw t h.untold;
  }
  Changes-IsForgotten c s s' (closed key r t n) h = record {
    passed = rw n h.passed;
    gone = rw r (not_held-remove key c s.running_queries h.gone);
    untold = rw t (closed-untold s key c h);
  }
