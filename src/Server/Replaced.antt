-- ===== src/Server/Replaced.antt =====
-- main.rs: what becomes of a query whose identifier is requested again.
use nostrd.Base.{
  ℕ, ◌==◌, ◌≡◌, refl, String, String_discrete, some, List, [], ◌∷◌, ◌++◌, false, any, eqb_refl, map,
  arith,
}
use nostrd.Base.Outcome.{Outcome, ok, err, panic}
use nostrd.Base.Table.{get, insert, get-insert}
use nostrd.Config.{Settings}
use nostrd.Error.{Error}
use nostrd.Primitives.{Primitives}
use nostrd.Protocol.Subscription.{Subscription}
use nostrd.Conn.{subscribe}
use nostrd.Stream.{req}
use nostrd.Server.{
  Session, Input, Step, continue, break, crash, client, start, after_subscribe, on_message,
  on_client, step, cleanup, run, next_turn,
}
use nostrd.Server.Laws.{After}
use nostrd.Server.Queries.{any-append, told}
use nostrd.Server.Channels.{holds, get-holds, remove-gone}
use nostrd.Server.Changes.{Changes, step-Changes}
use nostrd.Server.Forgotten.{
  IsExclusive, IsForgotten, Changes-IsExclusive, Changes-IsForgotten, fresh-holds, fresh-told,
}
use nostrd.Server.Broadcast.{Continues}

module _ ⦃lib : Primitives⦄ where
  start-IsExclusive : (client_id : String) → IsExclusive (start client_id)
  unfolding start any
  start-IsExclusive client_id = record {
    apart = tt;
    below = λ c held. absurd (cc held);
    silent = λ c held. refl;
    past = λ c is_told. absurd (cc is_told);
  }

  turn-IsExclusive :
      (s : Session) (o : Step) (t : Session) (rest : Session → Step)
      → After (Changes s) o
      → next_turn o rest ≡ continue t
      → IsExclusive s
      → ((s' : Session) → IsExclusive s' → rest s' ≡ continue t → IsExclusive t)
      → IsExclusive t
  turn-IsExclusive s (continue s') t rest ch went h then =
      then s' (Changes-IsExclusive s s' ch h) went
  turn-IsExclusive s (break s') t rest ch went h then = absurd (cc went)
  turn-IsExclusive s crash t rest ch went h then = absurd (cc went)

  run-IsExclusive :
      (settings : Settings) (inputs : List (ℕ × Input)) (s t : Session)
      → run settings inputs s ≡ continue t
      → IsExclusive s
      → IsExclusive t
  unfolding run
  run-IsExclusive settings [] s t went h = let same : s ≡ t = cc went in rw (← same) h
  run-IsExclusive settings ((now, input) ∷ inputs) s t went h =
      turn-IsExclusive s (step settings now s input) t _ (step-Changes settings now s input) went h
        (λ s' h' went'. run-IsExclusive settings inputs s' t went' h')

  -- no message to stop was sent on the channel
  abbrev pub IsUntold : ℕ → Session → Type 0
  IsUntold c s = told c s.stopped ≡ false

  told-values : (c : ℕ) (table : List (String × ℕ)) → told c (map (λ e. e.1) table) ≡ holds c table
  unfolding any
  told-values c [] = refl
  told-values c (e ∷ table) = rw (told-values c table) refl

  cleanup-IsUntold : (c : ℕ) (s : Session) → IsForgotten c s → IsUntold c (cleanup s)
  unfolding cleanup
  cleanup-IsUntold c s h =
      rw
        (
          any-append (λ (d : ℕ). d == c) s.stopped (map (λ e. e.1) s.running_queries),
          h.untold,
          told-values c s.running_queries,
          h.gone,
        )
        refl

  turn-IsUntold :
      (c : ℕ) (s : Session) (o : Step) (rest : Session → Step)
      → After (Changes s) o
      → IsForgotten c s
      → ((s' : Session) → IsForgotten c s' → After (IsUntold c) (rest s'))
      → After (IsUntold c) (next_turn o rest)
  turn-IsUntold c s (continue s') rest ch h then = then s' (Changes-IsForgotten c s s' ch h)
  turn-IsUntold c s (break s') rest ch h then =
      cleanup-IsUntold c s' (Changes-IsForgotten c s s' ch h)
  turn-IsUntold c s crash rest ch h then = tt

  run-IsUntold :
      (settings : Settings) (inputs : List (ℕ × Input)) (c : ℕ) (s : Session)
      → IsForgotten c s
      → After (IsUntold c) (run settings inputs s)
  unfolding run
  run-IsUntold settings [] c s h = h.untold
  run-IsUntold settings ((now, input) ∷ inputs) c s h =
      turn-IsUntold c s (step settings now s input) _ (step-Changes settings now s input) h
        (λ s' h'. run-IsUntold settings inputs c s' h')

  -- The REQ starts a query under a channel that no running query has, and on which no message to stop
  -- was sent; the channel is kept for its identifier, and the connection is that of the subscription.
  pub record IsRestarted (sub : Subscription) (s s' : Session) : Type 0 where
    pub channel : ℕ
    pub running : get String_discrete (lib.hash.to_hex sub.id) s'.running_queries ≡ some channel
    pub queries : s'.queries ≡ s.queries ++ ((channel, sub) ∷ [])
    pub unused : holds channel s.running_queries ≡ false
    pub untold : told channel s.stopped ≡ false
    pub conn : s'.conn ≡ (subscribe s.conn sub).0

  restarted :
      (s : Session) (sub : Subscription) (o : Outcome Error Unit)
      → IsExclusive s
      → o ≡ ok tt
      → Continues (IsRestarted sub s) (after_subscribe s sub (subscribe s.conn sub).0 o)
  restarted s sub (ok u) h accepted = record {
    channel = s.next_channel;
    running = ground (
      arith,
      get-insert String_discrete (lib.hash.to_hex sub.id) (lib.hash.to_hex sub.id) s.next_channel
          s.running_queries,
      eqb_refl String_discrete (lib.hash.to_hex sub.id),
    );
    queries = refl;
    unused = fresh-holds s h;
    untold = fresh-told s h;
    conn = refl;
  }
  restarted s sub (err x) h accepted = cc accepted
  restarted s sub panic h accepted = cc accepted

  -- the old channel, behind the REQ
  replaced-IsUntold :
      (settings : Settings) (inputs : List (ℕ × Input)) (s : Session) (sub : Subscription) (c : ℕ)
      (o : Outcome Error Unit)
      → IsExclusive s
      → get String_discrete (lib.hash.to_hex sub.id) s.running_queries ≡ some c
      → o ≡ ok tt
      → After (IsUntold c) (
          next_turn
            (after_subscribe s sub (subscribe s.conn sub).0 o)
            (λ s'. run settings inputs s'))
  unfolding insert any
  replaced-IsUntold settings inputs s sub c (ok u) h found accepted =
      let there = get-holds (lib.hash.to_hex sub.id) c s.running_queries found in
      let before = h.below c there in
      let other : (s.next_channel == c) ≡ false = ground (arith, before) in
      run-IsUntold settings inputs c _ (record {
        passed = omega (arith, before);
        gone = rw other (remove-gone (lib.hash.to_hex sub.id) c s.running_queries h.apart found);
        untold = h.silent c there;
      })
  replaced-IsUntold settings inputs s sub c (err x) h found accepted = absurd (cc accepted)
  replaced-IsUntold settings inputs s sub c panic h found accepted = absurd (cc accepted)

  -- After any inputs after which the loop goes on: if a query is running for an identifier and a REQ
  -- under the same identifier is accepted, then the connection takes the subscription up, and a query is
  -- started under a channel that no running query has and on which no message to stop was sent; and
  -- whatever inputs follow, on the channel of the old query the message to stop is never sent, not by a
  -- CLOSE and not by the clean-up at the end.
  pub req-IsRestarted :
      (settings : Settings) (before after : List (ℕ × Input)) (now c : ℕ) (client_id : String)
      (s : Session) (sub : Subscription)
      → run settings before (start client_id) ≡ continue s
      → get String_discrete (lib.hash.to_hex sub.id) s.running_queries ≡ some c
      → (subscribe s.conn sub).1 ≡ ok tt
      → Continues (IsRestarted sub s) (step settings now s (client (some (ok (req sub)))))
        × After (IsUntold c) (run settings ((now, client (some (ok (req sub)))) ∷ after) s)
  unfolding run step on_client on_message
  req-IsRestarted settings before after now c client_id s sub went found accepted =
      let h =
        run-IsExclusive settings before (start client_id) s went (start-IsExclusive client_id) in
      (
        restarted s sub (subscribe s.conn sub).1 h accepted,
        replaced-IsUntold settings after s sub c (subscribe s.conn sub).1 h found accepted,
      )
