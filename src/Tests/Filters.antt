-- ===== src/Tests/Filters.antt =====
-- Filters, subscriptions and connections at concrete values.
use mathlib.Core.Logic.Or
use mathlib.Core.List.{eq-or-mem_of_mem-cons, not-mem-nil}
use nostrd.Protocol.Tags.{get_recommended_url}
use nostrd.Tests.Samples.{url_tag}
use nostrd.Base.{◌≡◌, ◌↔◌, inl, some, none, [], ◌∷◌, Mem, true, false, arith, String_discrete}
use nostrd.Base.Table.{has, get, insert, remove}
use nostrd.Protocol.Tags.{Tag}
use nostrd.Protocol.Subscription.{Subscription, filter_interested, interested_in_event}
use nostrd.Protocol.Subscription.Matching.{
  IsWanted, filter_interested_iff, filter_misses_urls, HasUrl,
}
use nostrd.Conn.{ClientConn, get_matching_subscriptions, subscribe}
use nostrd.Conn.Laws.{IsValid, active, subscribe-IsValid}
use nostrd.Conn.Delivery.{mem-get_matching_subscriptions}
use nostrd.Tests.Toy.{toy}
use nostrd.Tests.Samples.{note, linked, replies, sub}

filter_interested_iff_example : (filter_interested replies note ≡ true) ↔ IsWanted replies note
filter_interested_iff_example = filter_interested_iff replies note

linked_urls : (t : Tag) → Mem t linked.tags → HasUrl t
unfolding get_recommended_url
linked_urls t h bare =
    Or.elim (hlevel) (eq-or-mem_of_mem-cons h)
      (λ (e : t ≡ url_tag).
        let b : get_recommended_url url_tag ≡ none = rw e at bare in ground arith)
      (λ (m : Mem t []). not-mem-nil m)

filter_misses_urls_example : filter_interested replies linked ≡ false
filter_misses_urls_example = filter_misses_urls replies linked linked_urls (inl (ground arith))

abbrev idle : ClientConn
idle = record { client_id = "c"; subscriptions = []; max_subs = 1 }

idle-IsValid : IsValid idle
unfolding get
idle-IsValid = record { bounded = omega arith; distinct = tt; own_key = λ id s h. ground arith }

abbrev client : ClientConn
client = record { client_id = "c"; subscriptions = ("7", sub) ∷ []; max_subs = 1 }

client-IsValid : IsValid client
unfolding subscribe has get insert remove String_discrete
client-IsValid = (subscribe-IsValid idle sub idle-IsValid).0

mem-get_matching_subscriptions_example :
    Mem "7" (get_matching_subscriptions client note)
    ↔ ((s : Subscription) × (active client "7" ≡ some s) × (interested_in_event s note ≡ true))
mem-get_matching_subscriptions_example =
    mem-get_matching_subscriptions client note "7" client-IsValid
