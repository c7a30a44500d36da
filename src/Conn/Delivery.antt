-- ===== src/Conn/Delivery.antt =====
-- conn.rs: which subscriptions get an event.
use mathlib.Core.List.{not-mem-nil, mem-append, eq-or-mem_of_mem-cons, mem-cons_self}
use mathlib.Core.Logic.{◌∨₁◌}
use mathlib.Core.Logic.Or
use nostrd.Base.{
  ◌≡◌, ◌↔◌, ◌⊎◌, inl, inr, refl, Option, none, some, List, [], ◌∷◌, ◌++◌, Mem, Bool, true, false,
  arith, Bool-true-prop, if◌then◌else◌,
}
use nostrd.Base.Table.{get, IsDistinct}
use nostrd.Primitives.{Primitives, EventId}
use nostrd.Protocol.Event.{Event}
use nostrd.Protocol.Subscription.{Subscription, interested_in_event}
use nostrd.Conn.{ClientConn, push_matching, get_matching_subscriptions}
use nostrd.Conn.Laws.{IsValid, active}

module _ ⦃lib : Primitives⦄ where
  -- the subscription under the identifier wants the event
  abbrev wanted_by : Event → Option Subscription → Bool
  wanted_by e none = false
  wanted_by e (some s) = interested_in_event s e

  wanted : EventId → List (EventId × Subscription) → Event → Bool
  wanted id m e = wanted_by e (get lib.hash.discrete id m)

  -- the identifiers that the loop has collected after one more entry
  pushed :
      (b : Bool) (id j : EventId) (v : List EventId)
      → Mem id (if b then v ++ (j ∷ []) else v) ↔ (Mem id v ∨₁ ((id ≡ j) × (b ≡ true)))
  pushed true id j v = (
    λ m.
        Or.elim squash₁ (mem-append.0 m) (λ (r : Mem id v). Or.inl r)
          (λ (r : Mem id (j ∷ [])).
            Or.elim squash₁ (eq-or-mem_of_mem-cons r) (λ (e : id ≡ j). Or.inr (e, refl))
              (λ (q : Mem id []). absurd (not-mem-nil q))),
    λ d. (mem-append {s = v} {t = j ∷ []}).1 (
        Or.elim squash₁ d (λ (r : Mem id v). Or.inl r)
          (λ (h : (id ≡ j) × (true ≡ true)). Or.inr (rw h.0 mem-cons_self))),
  )
  pushed false id j v = (
    λ m. Or.inl m,
    λ d. Or.elim squash₁ d (λ (r : Mem id v). r) (λ (h : (id ≡ j) × (false ≡ true)). cc h.1),
  )

  wanted_first :
      (e : Event) (id j : EventId) (s : Subscription) (m : List (EventId × Subscription))
      → id ≡ j
      → interested_in_event s e ≡ true
      → wanted id ((j, s) ∷ m) e ≡ true
  unfolding wanted get
  wanted_first e id j s m same h = ground arith

  wanted_later :
      (e : Event) (id j : EventId) (s : Subscription) (m : List (EventId × Subscription))
      → get lib.hash.discrete j m ≡ none
      → wanted id m e ≡ true
      → wanted id ((j, s) ∷ m) e ≡ true
  unfolding wanted get
  wanted_later e id j s m absent h = ground arith

  wanted_cases :
      (e : Event) (id j : EventId) (s : Subscription) (m : List (EventId × Subscription))
      → wanted id ((j, s) ∷ m) e ≡ true
      → ((id ≡ j) × (interested_in_event s e ≡ true)) ⊎ (wanted id m e ≡ true)
  unfolding wanted get
  wanted_cases e id j s m h = elim (lib.hash.discrete j id) [
    | yes p ↦ inl (ground arith)
    | no p ↦ inr (ground arith)
  ]

  now_or_later :
      (e : Event) (id j : EventId) (s : Subscription) (m : List (EventId × Subscription))
      → (v : List EventId) → wanted id ((j, s) ∷ m) e ≡ true
      → Mem id (if interested_in_event s e then v ++ (j ∷ []) else v) ∨₁ (wanted id m e ≡ true)
  now_or_later e id j s m v h = elim (wanted_cases e id j s m h) [
    | inl now ↦ Or.inl ((pushed (interested_in_event s e) id j v).1 (Or.inr now))
    | inr later ↦ Or.inr later
  ]

  mem-push_matching :
      (e : Event) (id : EventId) (v : List EventId) (m : List (EventId × Subscription))
      → IsDistinct lib.hash.discrete m
      → Mem id (push_matching e v m) ↔ (Mem id v ∨₁ (wanted id m e ≡ true))
  unfolding push_matching
  mem-push_matching e id v [] d = (
    λ m. Or.inl m,
    λ o.
        Or.elim squash₁ o (λ (r : Mem id v). r)
          (λ (h : wanted id [] e ≡ true). unfold wanted get in cc h),
  )
  mem-push_matching e id v ((j, s) ∷ m) d =
      let v' = if interested_in_event s e then v ++ (j ∷ []) else v in
      let ih = mem-push_matching e id v' m d.1 in
      let one = pushed (interested_in_event s e) id j v in
      (
        λ r.
            Or.elim squash₁ (ih.0 r)
              (λ (q : Mem id v').
                Or.elim squash₁ (one.0 q) (λ (k : Mem id v). Or.inl k)
                  (λ (h : (id ≡ j) × (interested_in_event s e ≡ true)).
                    Or.inr (wanted_first e id j s m h.0 h.1)))
              (λ (h : wanted id m e ≡ true). Or.inr (wanted_later e id j s m d.0 h)),
        λ o. ih.1 (
            Or.elim squash₁ o (λ (k : Mem id v). Or.inl (one.1 (Or.inl k)))
              (λ (h : wanted id ((j, s) ∷ m) e ≡ true). now_or_later e id j s m v h)),
      )

  wanted_active :
      (e : Event) (o : Option Subscription)
      → (wanted_by e o ≡ true)
        ↔ ((s : Subscription) × (o ≡ some s) × (interested_in_event s e ≡ true))
  wanted_active e none = (λ h. cc, λ w. cc w.1)
  wanted_active e (some s) = (λ h. (s, refl, h), λ w. ground (arith, w.1, w.2))

  -- On a valid connection an event is delivered under an identifier exactly when a subscription is
  -- active under it and is interested in the event.
  pub mem-get_matching_subscriptions :
      (c : ClientConn) (e : Event) (id : EventId)
      → IsValid c
      → Mem id (get_matching_subscriptions c e)
        ↔ ((s : Subscription) × (active c id ≡ some s) × (interested_in_event s e ≡ true))
  unfolding get_matching_subscriptions wanted
  mem-get_matching_subscriptions c e id v =
      let found = mem-push_matching e id [] c.subscriptions v.distinct in
      let by_entry = wanted_active e (active c id) in
      (
        λ m. by_entry.0 (
            Or.elim (Bool-true-prop _) (found.0 m) (λ (q : Mem id []). absurd (not-mem-nil q))
              (λ (h : wanted id c.subscriptions e ≡ true). h)),
        λ w. found.1 (Or.inr (by_entry.1 w)),
      )
