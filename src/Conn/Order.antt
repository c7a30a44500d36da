-- ===== src/Conn/Order.antt =====
-- conn.rs: the order of the entries of a table does not matter to a connection.
use mathlib.Core.List.{Permᴰ, append_assoc, append-nil}
use mathlib.Core.List.Permᴰ
use nostrd.Base.{
  ◌≡◌, refl, sym, List, [], ◌∷◌, ◌++◌, Bool, true, false, length, ltb, leb, if◌then◌else◌,
  Bool-cases, inl, inr,
}
use nostrd.Base.Outcome.{Outcome, ok, err}
use nostrd.Error.{Error}
use nostrd.Base.Table.{has, IsDistinct, insert-IsDistinct, remove-IsDistinct}
use nostrd.Base.Table.Order.{length-perm, has-perm, remove-perm, insert-perm}
use nostrd.Primitives.{Primitives, EventId}
use nostrd.Protocol.Commands.{Close}
use nostrd.Protocol.Event.{Event}
use nostrd.Protocol.Subscription.{Subscription, interested_in_event}
use nostrd.Conn.{
  max_subscription_id_len, ClientConn, push_matching, get_matching_subscriptions, subscribe,
  unsubscribe,
}

module _ ⦃lib : Primitives⦄ where
  -- The connections differ in the order of their subscriptions alone, whose identifiers are distinct.
  pub record SameConn (c c' : ClientConn) : Type 0 where
    pub client : c.client_id ≡ c'.client_id
    pub limit : c.max_subs ≡ c'.max_subs
    pub entries : Permᴰ c.subscriptions c'.subscriptions
    pub distinct : IsDistinct lib.hash.discrete c.subscriptions

  -- the identifiers that one more entry collects
  abbrev collected : Event → EventId × Subscription → List EventId
  collected e (id, sub) = if interested_in_event sub e then id ∷ [] else []

  push_matching-cons :
      (e : Event) (v : List EventId) (a : EventId × Subscription)
      (m : List (EventId × Subscription))
      → push_matching e v (a ∷ m) ≡ push_matching e (v ++ collected e a) m
  unfolding push_matching
  push_matching-cons e v (id, sub) m = elim (Bool-cases (interested_in_event sub e)) [
    | inl wants ↦ rw wants refl
    | inr not ↦ rw (not, append-nil v) refl
  ]

  push_matching-start :
      (e : Event) (m : List (EventId × Subscription)) {v v' : List EventId}
      → Permᴰ v v'
      → Permᴰ (push_matching e v m) (push_matching e v' m)
  push_matching-start e [] d = unfold push_matching in d
  push_matching-start e (a ∷ m) {v} {v'} d =
      rw (push_matching-cons e v a m, push_matching-cons e v' a m)
        (push_matching-start e m (Permᴰ.append_right (collected e a) d))

  push_matching-swap :
      (e : Event) (v : List EventId) (a b : EventId × Subscription)
      (m : List (EventId × Subscription))
      → Permᴰ (push_matching e v (a ∷ b ∷ m)) (push_matching e v (b ∷ a ∷ m))
  push_matching-swap e v a b m =
      rw
        (
          push_matching-cons e v a (b ∷ m),
          push_matching-cons e (v ++ collected e a) b m,
          push_matching-cons e v b (a ∷ m),
          push_matching-cons e (v ++ collected e b) a m,
          append_assoc v (collected e a) (collected e b),
          append_assoc v (collected e b) (collected e a),
        )
        (push_matching-start e m
          (Permᴰ.append_left v (Permᴰ.append_comm (collected e a) (collected e b))))

  push_matching-perm :
      (e : Event) (v : List EventId) {m m' : List (EventId × Subscription)}
      → Permᴰ m m'
      → Permᴰ (push_matching e v m) (push_matching e v m')
  push_matching-perm e v Permᴰ.nil = Permᴰ.refl (push_matching e v [])
  push_matching-perm e v (Permᴰ.cons {a} {b} {l₁} {l₂} same d) = rw (← same) (
      rw (push_matching-cons e v a l₁, push_matching-cons e v a l₂)
        (push_matching-perm e (v ++ collected e a) d))
  push_matching-perm e v (Permᴰ.swap {a} {b} {a'} {b'} {l} p q) =
      rw (← p, ← q) (push_matching-swap e v a b l)
  push_matching-perm e v (Permᴰ.trans d d') =
      Permᴰ.trans (push_matching-perm e v d) (push_matching-perm e v d')

  -- The subscriptions that match are the same, up to their order.
  pub matching-perm :
      (c c' : ClientConn) (e : Event)
      → SameConn c c'
      → Permᴰ (get_matching_subscriptions c e) (get_matching_subscriptions c' e)
  unfolding get_matching_subscriptions
  matching-perm c c' e same = push_matching-perm e [] same.entries

  abbrev pub SameAnswer : ClientConn × Outcome Error Unit → ClientConn × Outcome Error Unit → Type 0
  SameAnswer (c, o) (c', o') = (o ≡ o') × SameConn c c'

  -- the branches of `subscribe`
  choose :
      (c c' c1 c1' c2 c2' : ClientConn) (long known full : Bool) (x y : Error)
      → SameConn c c'
      → SameConn c1 c1'
      → SameConn c2 c2'
      → SameAnswer
          (if long
            then (c, err x)
            else if known
            then (c1, ok tt)
            else if full
            then (c, err y)
            else (c2, ok tt))
          (if long
            then (c', err x)
            else if known
            then (c1', ok tt)
            else if full
            then (c', err y)
            else (c2', ok tt))
  choose c c' c1 c1' c2 c2' true known full x y h h1 h2 = (refl, h)
  choose c c' c1 c1' c2 c2' false true full x y h h1 h2 = (refl, h1)
  choose c c' c1 c1' c2 c2' false false true x y h h1 h2 = (refl, h)
  choose c c' c1 c1' c2 c2' false false false x y h h1 h2 = (refl, h2)

  with_entries :
      (c c' : ClientConn) (m m' : List (EventId × Subscription))
      → SameConn c c'
      → Permᴰ m m'
      → IsDistinct lib.hash.discrete m
      → SameConn (record c { subscriptions = m }) (record c' { subscriptions = m' })
  with_entries c c' m m' same d h = record {
    client = same.client;
    limit = same.limit;
    entries = d;
    distinct = h;
  }

  -- Subscribing answers the same.
  pub subscribe-SameConn :
      (c c' : ClientConn) (s : Subscription)
      → SameConn c c'
      → SameAnswer (subscribe c s) (subscribe c' s)
  unfolding subscribe
  subscribe-SameConn c c' s same =
      let dec = lib.hash.discrete in
      let known = has-perm dec s.id same.entries same.distinct in
      let full : leb c'.max_subs (length c'.subscriptions)
          ≡ leb c.max_subs (length c.subscriptions) =
        rw (same.limit, length-perm same.entries) refl in
      let gone = remove-perm dec s.id same.entries in
      let apart = remove-IsDistinct dec s.id c.subscriptions same.distinct in
      rw (sym known, full)
        (choose c c' _ _ _ _ (ltb max_subscription_id_len (lib.hash_len s.id))
          (has dec s.id c.subscriptions) (leb c.max_subs (length c.subscriptions)) _ _ same
          (with_entries c c' _ _ same (insert-perm dec s.id s gone)
            (insert-IsDistinct dec s.id s _ apart))
          (with_entries c c' _ _ same (insert-perm dec s.id s same.entries)
            (insert-IsDistinct dec s.id s _ same.distinct)))

  pub unsubscribe-SameConn :
      (c c' : ClientConn) (cmd : Close)
      → SameConn c c'
      → SameConn (unsubscribe c cmd) (unsubscribe c' cmd)
  unfolding unsubscribe
  unsubscribe-SameConn c c' cmd same = record {
    client = same.client;
    limit = same.limit;
    entries = remove-perm lib.hash.discrete cmd.id same.entries;
    distinct = remove-IsDistinct lib.hash.discrete cmd.id c.subscriptions same.distinct;
  }
