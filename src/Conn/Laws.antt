-- ===== src/Conn/Laws.antt =====
-- conn.rs: the invariant of a connection, and what subscribing and unsubscribing do on every branch.
use nostrd.Base.{
  String, ◌≤◌, ◌≡◌, refl, inl, inr, Option, none, some, false, arith, length, eqb, leb, ltb,
  if◌then◌else◌, Bool-cases,
}
use nostrd.Base.Outcome.{ok, err}
use nostrd.Base.Table
use nostrd.Base.Table.{get, has, insert, remove, IsDistinct}
use nostrd.Error.{Error, sub_max_exceeded_error}
use nostrd.Primitives.{Primitives, EventId}
use nostrd.Protocol.Commands.{Close}
use nostrd.Protocol.Subscription.{Subscription}
use nostrd.Conn.{ClientConn, new_conn, subscribe, unsubscribe}

module _ ⦃lib : Primitives⦄ where
  -- At most `max_subs` subscriptions, no identifier twice, each under its own identifier.
  pub record IsValid (c : ClientConn) : Type 0 where
    pub bounded : length c.subscriptions ≤ c.max_subs
    pub distinct : IsDistinct lib.hash.discrete c.subscriptions
    pub own_key :
        (id : EventId) (s : Subscription)
        → get lib.hash.discrete id c.subscriptions ≡ some s
        → s.id ≡ id

  -- the subscription that is found under an identifier
  abbrev pub active : ClientConn → EventId → Option Subscription
  active c id = get lib.hash.discrete id c.subscriptions

  -- A new connection is valid, has no subscription, and allows 32.
  pub new_conn-IsValid :
      (client_id : String)
      → IsValid (new_conn client_id)
        × ((new_conn client_id).max_subs ≡ 32)
        × ((id : EventId) → active (new_conn client_id) id ≡ none)
  unfolding new_conn get
  new_conn-IsValid client_id =
      (record { bounded = omega arith; distinct = tt; own_key = λ id s h. cc }, refl, λ id. refl)

  -- the check of the length never fails
  short_id : (id : EventId) → ltb 256 (lib.hash_len id) ≡ false
  short_id id = rw (lib.hash_len_lem id)

  -- What subscribing answers: a known identifier is always accepted, a new one while there is room;
  -- the error for long identifiers never occurs.
  pub subscribe-outcome :
      (c : ClientConn) (s : Subscription)
      → (subscribe c s).1 ≡ (
          if has lib.hash.discrete s.id c.subscriptions
          then ok tt
          else if leb c.max_subs (length c.subscriptions)
          then err sub_max_exceeded_error
          else ok tt)
  unfolding subscribe
  subscribe-outcome c s = ground (arith, short_id s.id)

  -- A refused subscription changes nothing.
  pub subscribe_refused :
      (c : ClientConn) (s : Subscription) (e : Error)
      → (subscribe c s).1 ≡ err e
      → ((subscribe c s).0 ≡ c)
        × (e ≡ sub_max_exceeded_error)
        × (c.max_subs ≤ length c.subscriptions)
  unfolding subscribe
  subscribe_refused c s e h =
      (ground (arith, short_id s.id), ground (arith, short_id s.id), ground (arith, short_id s.id))

  -- After an accepted subscription, it is what is found under its identifier, and every other
  -- identifier is as before.
  pub active-subscribe :
      (c : ClientConn) (s : Subscription) (id : EventId)
      → (subscribe c s).1 ≡ ok tt
      → active (subscribe c s).0 id
        ≡ (if eqb lib.hash.discrete s.id id then some s else active c id)
  unfolding subscribe
  active-subscribe c s id h = ground (
    arith,
    short_id s.id,
    Table.get-insert lib.hash.discrete s.id id s c.subscriptions,
    Table.get-insert lib.hash.discrete s.id id s (remove lib.hash.discrete s.id c.subscriptions),
    Table.get-remove lib.hash.discrete s.id id c.subscriptions,
  )

  -- After a CLOSE, nothing is found under its identifier, and every other identifier is as before.
  pub active-unsubscribe :
      (c : ClientConn) (close : Close) (id : EventId)
      → active (unsubscribe c close) id
        ≡ (if eqb lib.hash.discrete close.id id then none else active c id)
  unfolding unsubscribe
  active-unsubscribe c close id = Table.get-remove lib.hash.discrete close.id id c.subscriptions

  module _ (c : ClientConn) (s : Subscription) (v : IsValid c) where
    subscribe_bounded : length (subscribe c s).0.subscriptions ≤ (subscribe c s).0.max_subs
    unfolding subscribe insert
    subscribe_bounded = ground (
      arith,
      v.bounded,
      short_id s.id,
      Table.length-remove-le lib.hash.discrete s.id c.subscriptions,
      Table.length-remove-le lib.hash.discrete s.id (remove lib.hash.discrete s.id c.subscriptions),
      Table.length-remove-lt lib.hash.discrete s.id c.subscriptions,
    )

    subscribe-IsDistinct : IsDistinct lib.hash.discrete (subscribe c s).0.subscriptions
    unfolding subscribe
    subscribe-IsDistinct =
        let old = remove lib.hash.discrete s.id c.subscriptions in
        let kept = Table.remove-IsDistinct lib.hash.discrete s.id c.subscriptions v.distinct in
        let replaced = Table.insert-IsDistinct lib.hash.discrete s.id s old kept in
        let added = Table.insert-IsDistinct lib.hash.discrete s.id s c.subscriptions v.distinct in
        elim (Bool-cases (has lib.hash.discrete s.id c.subscriptions)) [
          | inl known ↦ rw (short_id s.id, known) replaced
          | inr new ↦ elim (Bool-cases (leb c.max_subs (length c.subscriptions))) [
            | inl full ↦ rw (short_id s.id, new, full) v.distinct
            | inr room ↦ rw (short_id s.id, new, room) added
          ]
        ]

    subscribe_own_key :
        (id : EventId) (t : Subscription)
        → get lib.hash.discrete id (subscribe c s).0.subscriptions ≡ some t
        → t.id ≡ id
    unfolding subscribe
    subscribe_own_key id t p = ground (
      arith,
      short_id s.id,
      v.own_key id t,
      Table.get-insert lib.hash.discrete s.id id s c.subscriptions,
      Table.get-insert lib.hash.discrete s.id id s (remove lib.hash.discrete s.id c.subscriptions),
      Table.get-remove lib.hash.discrete s.id id c.subscriptions,
    )

    subscribe_limit : (subscribe c s).0.max_subs ≡ c.max_subs
    unfolding subscribe
    subscribe_limit = ground arith

  -- Subscribing keeps the invariant, accepted or refused, and never changes the limit.
  pub subscribe-IsValid :
      (c : ClientConn) (s : Subscription)
      → IsValid c
      → IsValid (subscribe c s).0 × ((subscribe c s).0.max_subs ≡ c.max_subs)
  subscribe-IsValid c s v = (
    record {
      bounded = subscribe_bounded c s v;
      distinct = subscribe-IsDistinct c s v;
      own_key = subscribe_own_key c s v;
    },
    subscribe_limit c s v,
  )

  -- Unsubscribing keeps the invariant and the limit.
  pub unsubscribe-IsValid :
      (c : ClientConn) (close : Close)
      → IsValid c
      → IsValid (unsubscribe c close) × ((unsubscribe c close).max_subs ≡ c.max_subs)
  unfolding unsubscribe
  unsubscribe-IsValid c close v = (
    record {
      bounded =
          omega
            (arith, Table.length-remove-le lib.hash.discrete close.id c.subscriptions, v.bounded);
      distinct = Table.remove-IsDistinct lib.hash.discrete close.id c.subscriptions v.distinct;
      own_key = λ id s p.
          ground
            (arith, v.own_key id s, Table.get-remove lib.hash.discrete close.id id c.subscriptions);
    },
    refl,
  )
