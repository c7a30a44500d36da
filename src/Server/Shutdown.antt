-- ===== src/Server/Shutdown.antt =====
-- main.rs: how the loop ends.
use nostrd.Base.{
  ℕ, ◌==◌, ◌≡◌, refl, String, String_discrete, some, List, [], ◌∷◌, ◌++◌, map, true, ◌⊎◌, inl, inr,
  any, eqb, Bool-cases, arith, All, All-imp,
}
use nostrd.Base.Table.{get}
use nostrd.Config.{Settings}
use nostrd.Primitives.{Primitives}
use nostrd.Protocol.Subscription.{Subscription}
use nostrd.Server.{
  Session, Input, Step, continue, break, crash, shutdown, start, step, cleanup, run, next_turn,
}
use nostrd.Server.Laws.{After}
use nostrd.Server.Queries.{any-append, told, is_replaced, IsAccounted, IsTracked, step-IsTracked}

module _ ⦃lib : Primitives⦄ where
  -- the query was told to stop, or replaced
  abbrev pub IsOver : Session → ℕ × Subscription → Type 0
  IsOver s (channel, sub) =
      (told channel s.stopped ≡ true) ⊎ (is_replaced s.queries (channel, sub) ≡ true)

  -- The loop has ended, and unless its task has panicked every query that it started is over.
  abbrev pub IsEnded : Step → Type 0
  IsEnded (continue s) = ⊥
  IsEnded (break s) = All (IsOver s) s.queries
  IsEnded crash = Unit

  told-running :
      (k : String) (channel : ℕ) (table : List (String × ℕ))
      → get String_discrete k table ≡ some channel
      → told channel (map (λ entry. entry.1) table) ≡ true
  unfolding get any
  told-running k channel [] h = absurd (cc h)
  told-running k channel ((j, v) ∷ table) h = elim (Bool-cases (eqb String_discrete j k)) [
    | inl here ↦
        let same : some v ≡ some channel = rw here at h in
        let it : v ≡ channel = cc same in ground (arith, it)
    | inr other ↦ ground (arith, told-running k channel table (rw other at h))
  ]

  cleanup-IsEnded : (s : Session) → IsTracked s → IsEnded (break (cleanup s))
  unfolding cleanup
  cleanup-IsEnded s t = All-imp (IsAccounted s) _ over s.queries t.accounted
    where
      over : (q : ℕ × Subscription) → IsAccounted s q → IsOver (cleanup s) q
      over (channel, sub) (inl stopped) = inl (
          rw
            (
              any-append (λ c. c == channel) s.stopped (map (λ entry. entry.1) s.running_queries),
              stopped,
            )
            refl)
      over (channel, sub) (inr (inl running)) =
          let last = told-running (lib.hash.to_hex sub.id) channel s.running_queries running in
          inl (
            ground (
              arith,
              any-append (λ c. c == channel) s.stopped (map (λ entry. entry.1) s.running_queries),
              last,
            ))
      over (channel, sub) (inr (inr replaced)) = inr replaced

  next_turn-IsEnded :
      (st : Step) (rest : Session → Step)
      → After IsTracked st
      → ((s : Session) → IsTracked s → IsEnded (rest s))
      → IsEnded (next_turn st rest)
  next_turn-IsEnded (continue s) rest t h = h s t
  next_turn-IsEnded (break s) rest t h = cleanup-IsEnded s t
  next_turn-IsEnded crash rest t h = tt

  tracked-IsEnded :
      (settings : Settings) (before after : List (ℕ × Input)) (now : ℕ) (s : Session)
      → IsTracked s
      → IsEnded (run settings (before ++ ((now, shutdown) ∷ after)) s)
  unfolding run step
  tracked-IsEnded settings [] after now s t = cleanup-IsEnded s t
  tracked-IsEnded settings ((time, input) ∷ before) after now s t =
      next_turn-IsEnded (step settings time s input) _ (step-IsTracked settings time s input t)
        (λ s' t'. tracked-IsEnded settings before after now s' t')

  -- Whatever inputs come before it and after it, once the shutdown arrives the loop has ended; and
  -- unless its task panicked, each query that it had started was told to stop, or a later REQ had
  -- started another query for the same identifier.
  pub run-IsEnded :
      (settings : Settings) (before after : List (ℕ × Input)) (now : ℕ) (client_id : String)
      → IsEnded (run settings (before ++ ((now, shutdown) ∷ after)) (start client_id))
  unfolding start
  run-IsEnded settings before after now client_id =
      tracked-IsEnded settings before after now (start client_id)
        (record { accounted = tt; fresh = tt })
