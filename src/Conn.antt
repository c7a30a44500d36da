-- ===== src/Conn.antt =====
-- conn.rs: the state of a client's connection.
pub mod Laws
pub mod Delivery
pub mod Order
use Prim.Native.String.{[] as no_chars, ◌∷◌ as cons_char}
use nostrd.Base.{ℕ, zero, suc, String, List, [], ◌∷◌, ◌++◌, length, ltb, leb, if◌then◌else◌}
use nostrd.Base.Outcome.{Outcome, ok, err}
use nostrd.Base.Table
use nostrd.Error.{Error, sub_id_max_length_error, sub_max_exceeded_error}
use nostrd.Primitives.{Primitives, EventId}
use nostrd.Protocol.Commands.{Close}
use nostrd.Protocol.Event.{Event}
use nostrd.Protocol.Subscription.{Subscription, interested_in_event}

abbrev pub max_subscription_id_len : ℕ
max_subscription_id_len = 256

-- `chars().take(n)`
unfoldable pub take_chars : ℕ → String → String
take_chars zero s = ""
take_chars (suc n) no_chars = ""
take_chars (suc n) (cons_char c s) = cons_char c (take_chars n s)

module _ ⦃lib : Primitives⦄ where
  pub record ClientConn : Type 0 where
    -- the text of the UUID
    pub client_id : String
    pub subscriptions : List (EventId × Subscription)
    pub max_subs : ℕ

  -- `ClientConn::new`, with the UUID that was drawn
  unfoldable pub new_conn : String → ClientConn
  new_conn client_id = record { client_id = client_id; subscriptions = []; max_subs = 32 }

  unfoldable pub get_client_prefix : ClientConn → String
  get_client_prefix c = take_chars 8 c.client_id

  -- the loop of `get_matching_subscriptions`
  unfoldable pub push_matching : Event → List EventId → List (EventId × Subscription) → List EventId
  push_matching e v [] = v
  push_matching e v ((id, sub) ∷ rest) =
      push_matching e (if interested_in_event sub e then v ++ (id ∷ []) else v) rest

  unfoldable pub get_matching_subscriptions : ClientConn → Event → List EventId
  get_matching_subscriptions c e = push_matching e [] c.subscriptions

  -- `get_id`
  unfoldable pub subscribe : ClientConn → Subscription → ClientConn × Outcome Error Unit
  subscribe c s =
      let subs_id = s.id in
      let sub_id_len = lib.hash_len subs_id in
      if ltb max_subscription_id_len sub_id_len
      then (c, err sub_id_max_length_error)
      else if Table.has lib.hash.discrete subs_id c.subscriptions
      then (
        record c {
          subscriptions =
              Table.insert lib.hash.discrete subs_id s
                (Table.remove lib.hash.discrete subs_id c.subscriptions);
        },
        ok tt,
      )
      else if leb c.max_subs (length c.subscriptions)
      then (c, err sub_max_exceeded_error)
      else (
        record c { subscriptions = Table.insert lib.hash.discrete subs_id s c.subscriptions },
        ok tt,
      )

  unfoldable pub unsubscribe : ClientConn → Close → ClientConn
  unsubscribe conn c = record conn {
    subscriptions = Table.remove lib.hash.discrete c.id conn.subscriptions;
  }
