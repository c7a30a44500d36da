-- ===== src/Server/Requests.antt =====
-- main.rs: the subscriptions under which a client is sent events.
use mathlib.Core.List.{mem-append_left, mem-append_right, mem-cons_self}
use mathlib.Core.Logic.{∥∥₁_map}
use nostrd.Base.{
  ℕ, ◌≡◌, refl, String, List, [], ◌∷◌, ◌++◌, Bool, true, ltb, leb, length, inl, inr, eqb,
  Bool-cases, Mem, All, All-append,
}
use nostrd.Base.Outcome.{ok}
use nostrd.Base.Table.{insert, remove, has}
use nostrd.Primitives.{Primitives, EventId}
use nostrd.Protocol.Event.{Event}
use nostrd.Protocol.Responses.{event_resp}
use nostrd.Protocol.Subscription.{Subscription, interested_in_event}
use nostrd.Conn.{max_subscription_id_len, ClientConn, push_matching, subscribe}
use nostrd.Stream.{NostrResponse, notice, event_response, new_event, new_notice}
use nostrd.Server.{Session, send}

pub All-remove {ℓ μ} :
    {K : Type ℓ} {V : Type ℓ} (dec : Discrete K) (P : K × V → Type μ) (k : K) (m : List (K × V))
    → All P m
    → All P (remove dec k m)
unfolding remove
All-remove dec P k [] h = tt
All-remove dec P k ((j, v) ∷ m) (here, h) = elim (Bool-cases (eqb dec j k)) [
  | inl this ↦ rw this (All-remove dec P k m h)
  | inr other ↦ rw other (here, All-remove dec P k m h)
]

module _ ⦃lib : Primitives⦄ where
  -- every query of the one list is in the other
  abbrev pub Grows : List (ℕ × Subscription) → List (ℕ × Subscription) → Type 0
  Grows before after = (q : ℕ × Subscription) → Mem q before → Mem q after

  -- A subscription of the table was requested, and stands under its own text.
  abbrev pub IsKnown : List (ℕ × Subscription) → EventId × Subscription → Type 0
  IsKnown queries (id, sub) =
      ∥ ((channel : ℕ) × Mem (channel, sub) queries) ∥₁
      × (lib.hash.to_hex sub.id ≡ lib.hash.to_hex id)

  pub IsKnown-later :
      (before after : List (ℕ × Subscription)) (entry : EventId × Subscription)
      → Grows before after
      → IsKnown before entry
      → IsKnown after entry
  IsKnown-later before after (id, sub) more (h, same) =
      (∥∥₁_map h (λ (channel, m). (channel, more (channel, sub) m)), same)

  pub Grows-append :
      (queries : List (ℕ × Subscription)) (q : ℕ × Subscription)
      → Grows queries (queries ++ (q ∷ []))
  Grows-append queries q a m = mem-append_left (q ∷ []) m

  pub new-IsKnown :
      (queries : List (ℕ × Subscription)) (channel : ℕ) (sub : Subscription)
      → IsKnown (queries ++ ((channel, sub) ∷ [])) (sub.id, sub)
  new-IsKnown queries channel sub = (∣ (channel, mem-append_right queries mem-cons_self) ∣₁, refl)

  pub All-subscribe :
      (P : EventId × Subscription → Type 0) (c : ClientConn) (sub : Subscription)
      → ((subscribe c sub).1 ≡ ok tt → P (sub.id, sub))
      → All P c.subscriptions
      → All P (subscribe c sub).0.subscriptions
  unfolding subscribe insert
  All-subscribe P c sub new h =
      elim (Bool-cases (ltb max_subscription_id_len (lib.hash_len sub.id))) [
        | inl long ↦ rw long h
        | inr short ↦ elim (Bool-cases (has lib.hash.discrete sub.id c.subscriptions)) [
          | inl old ↦
              let kept = All-remove lib.hash.discrete P sub.id c.subscriptions h in
              rw (short, old)
                (new (rw (short, old) refl), All-remove lib.hash.discrete P sub.id _ kept)
          | inr fresh ↦ elim (Bool-cases (leb c.max_subs (length c.subscriptions))) [
            | inl full ↦ rw (short, fresh, full) h
            | inr room ↦
                rw (short, fresh, room)
                  (
                    new (rw (short, fresh, room) refl),
                    All-remove lib.hash.discrete P sub.id c.subscriptions h,
                  )
          ]
        ]
      ]

-- `Serves sub e` says that the event may be sent under the subscription.
module _ ⦃lib : Primitives⦄ (Serves : Subscription → Event → Type 0) where
  -- The client requested a subscription with this text for its identifier that the event serves.
  abbrev pub IsRequested : List (ℕ × Subscription) → String → Event → Type 0
  IsRequested queries sub_id e = ∥ (
      (channel : ℕ) × (sub : Subscription) × Mem (channel, sub) queries
      × (lib.hash.to_hex sub.id ≡ sub_id)
      × Serves sub e) ∥₁

  -- what a response carries was requested
  abbrev pub IsAsked : List (ℕ × Subscription) → NostrResponse → Type 0
  IsAsked queries (notice r) = Unit
  IsAsked queries (event_response r) = IsRequested queries r.subscription_id r.event

  pub IsRequested-later :
      (before after : List (ℕ × Subscription)) (sub_id : String) (e : Event)
      → Grows before after
      → IsRequested before sub_id e
      → IsRequested after sub_id e
  IsRequested-later before after sub_id e more h =
      ∥∥₁_map h
        (λ (channel, sub, m, same, serves). (channel, sub, more (channel, sub) m, same, serves))

  pub IsAsked-later :
      (before after : List (ℕ × Subscription))
      → Grows before after
      → (r : NostrResponse) → IsAsked before r
      → IsAsked after r
  IsAsked-later before after more (notice r) h = tt
  IsAsked-later before after more (event_response r) h =
      IsRequested-later before after r.subscription_id r.event more h

  pub event-IsAsked :
      (queries : List (ℕ × Subscription)) (sub_id : String) (e : Event)
      → IsRequested queries sub_id e
      → IsAsked queries (new_event sub_id e)
  unfolding new_event event_resp
  event-IsAsked queries sub_id e h = h

  pub notice-IsAsked :
      (queries : List (ℕ × Subscription)) (msg : String) → IsAsked queries (new_notice msg)
  unfolding new_notice
  notice-IsAsked queries msg = tt

  pub push_matching-IsRequested :
      ((sub : Subscription) (e : Event) → interested_in_event sub e ≡ true → Serves sub e)
      → (queries : List (ℕ × Subscription)) (e : Event) (v : List EventId)
        (subs : List (EventId × Subscription))
      → All (λ id. IsRequested queries (lib.hash.to_hex id) e) v
      → All (IsKnown queries) subs
      → All (λ id. IsRequested queries (lib.hash.to_hex id) e) (push_matching e v subs)
  unfolding push_matching
  push_matching-IsRequested serves queries e v [] hv h = hv
  push_matching-IsRequested serves queries e v ((id, sub) ∷ rest) hv ((known, same), h) =
      elim (Bool-cases (interested_in_event sub e)) [
        | inl wants ↦
            let it : IsRequested queries (lib.hash.to_hex id) e =
              ∥∥₁_map known (λ (channel, m). (channel, sub, m, same, serves sub e wants)) in
            rw wants (
              push_matching-IsRequested serves queries e (v ++ (id ∷ [])) rest
                (All-append (λ id. IsRequested queries (lib.hash.to_hex id) e) v (id ∷ []) hv
                  (it, tt))
                h)
        | inr not ↦ rw not (push_matching-IsRequested serves queries e v rest hv h)
      ]

-- `is_good` is a test that every requested subscription passes.
module _ ⦃lib : Primitives⦄ (is_good : Subscription → Bool)
    (Serves : Subscription → Event → Type 0) where
  -- what the session has sent was requested, and so were its subscriptions; the requests are good
  pub record IsServed (s : Session) : Type 0 where
    pub active : All (IsKnown s.queries) s.conn.subscriptions
    pub sent : All (IsAsked Serves s.queries) s.sent
    pub good : All (λ (q : ℕ × Subscription). is_good q.1 ≡ true) s.queries

  abbrev pub IsServedAfter : Session → Session → Type 0
  IsServedAfter s s' = Grows s.queries s'.queries × IsServed s'

  pub send-IsServed :
      (s : Session) (r : NostrResponse)
      → IsServed s
      → IsAsked Serves s.queries r
      → IsServed (send s r)
  send-IsServed s r h a = record {
    active = h.active;
    sent = All-append (IsAsked Serves s.queries) s.sent (r ∷ []) h.sent (a, tt);
    good = h.good;
  }
