-- ===== src/Span/History.antt =====
-- Histories of calls of sap.go, by any goroutines: each call is one step.
use sap.Base.{ℕ, ◌≤◌, ◌≡◌, refl, sym, String, Option, none, some, List, [], ◌∷◌, arith}
use sap.Base.Text.{if_ind}
use sap.Message.Attributes.{Attribute}
use sap.Message.Ended.{TerminalType}
use sap.Message.Proto.{Proto, Time}
use sap.Span.{
  Span, Runtime, Context, EventOption, EventConfig, configure, zero_config, alloc, publish_to, tick,
}
use sap.Span.Methods.{
  new_span, start_with_hub, start, set_attributes, publish_update, add_event, publish_event,
  event_time, end_span, publish_end, complete, error,
}
use sap.Span.Life.{Life, Lives, Unique, of_span}
use sap.Span.Steps.{
  on_hub_ind, set_attributes-Lives, add_event-Lives, end_span-Lives, start_with_hub-Lives,
}
use mathlib.Core.Option.{some-ne-none}

pub data Call : Type 0 where
  hub_starts : Context → Option ℕ → String → List (Option Attribute) → Call
  starts : Context → String → List (Option Attribute) → Call
  sets : Option ℕ → List (Option Attribute) → Call
  adds : Option ℕ → String → List EventOption → Call
  completes : Option ℕ → Call
  fails : Option ℕ → Option String → Call

abbrev pub start_runtime : {T : Type 0} → Runtime T
start_runtime = record { spans = λ _. none; next = 0; ids_read = 0; clock_read = 0; published = [] }

module _ (p : Proto) (id : ℕ → String) (clock : ℕ → Time) where
  unfoldable pub step : Call → Runtime p.Timestamp → Runtime p.Timestamp
  step (hub_starts ctx hub name attrs) rt = (start_with_hub p id clock ctx hub name attrs rt).2
  step (starts ctx name attrs) rt = (start p id clock ctx name attrs rt).2
  step (sets a attrs) rt = set_attributes p clock a attrs rt
  step (adds a name opts) rt = add_event p clock a name opts rt
  step (completes a) rt = complete p clock a rt
  step (fails a err) rt = error p clock a err rt

  unfoldable pub run : List Call → Runtime p.Timestamp → Runtime p.Timestamp
  unfolding step
  run [] rt = rt
  run (c ∷ cs) rt = run cs (step c rt)

module _ (p : Proto) (id : ℕ → String) (clock : ℕ → Time) where
  start_runtime-Lives : (bound : ℕ) → Lives id bound (start_runtime {T = p.Timestamp})
  start_runtime-Lives bound = record {
    fresh = λ _ _. refl;
    life = λ a s h e _. absurd (some-ne-none s (sym e));
    named = λ a s h e _. absurd (some-ne-none s (sym e));
    single = λ a b s t h g e _ _ _ _. absurd (some-ne-none s (sym e));
    unread = λ _ _ _. refl;
  }

  step-Lives :
      {bound : ℕ} (u : Unique id bound) (c : Call) (rt : Runtime p.Timestamp)
      → Lives id bound rt
      → rt.ids_read ≤ bound
      → (step p id clock c rt).ids_read ≤ bound
      → Lives id bound (step p id clock c rt)
  unfolding step start complete error
  step-Lives u (hub_starts ctx hub name attrs) rt v l b =
      start_with_hub-Lives p clock u rt v l ctx hub name attrs b
  step-Lives u (starts ctx name attrs) rt v l b =
      start_with_hub-Lives p clock u rt v l ctx _ name attrs b
  step-Lives u (sets a attrs) rt v l b = set_attributes-Lives p clock u rt v l a attrs
  step-Lives u (adds a name opts) rt v l b = add_event-Lives p clock u rt v l a name opts
  step-Lives u (completes a) rt v l b = end_span-Lives p clock u rt v l a _ _
  step-Lives u (fails a none) rt v l b = end_span-Lives p clock u rt v l a _ _
  step-Lives u (fails a (some text)) rt v l b = end_span-Lives p clock u rt v l a _ _

  start-ids :
      (ctx : Context) (hub : Option ℕ) (name : String) (attrs : List (Option Attribute))
      (rt : Runtime p.Timestamp)
      → rt.ids_read ≤ (start_with_hub p id clock ctx hub name attrs rt).2.ids_read
  unfolding start_with_hub new_span alloc publish_to tick
  start-ids ctx none name attrs rt = omega arith
  start-ids ctx (some h) name attrs rt = omega arith

  end_span-ids :
      (a : Option ℕ) (type : TerminalType) (message : String) (rt : Runtime p.Timestamp)
      → rt.ids_read ≤ (end_span p clock a type message rt).ids_read
  unfolding end_span publish_end publish_to tick
  end_span-ids a type message rt =
      on_hub_ind (λ x. rt.ids_read ≤ x.ids_read) a _ rt (omega arith)
        (λ b h s e q.
          if_ind (λ (x : Runtime p.Timestamp). rt.ids_read ≤ x.ids_read) s.ended (λ _. omega arith)
            (λ _. omega arith))

  publish_update-ids :
      (h : ℕ) (s : Span) (attrs : List (Option Attribute)) (rt : Runtime p.Timestamp)
      → rt.ids_read ≤ (publish_update p clock h s attrs rt).ids_read
  unfolding publish_update publish_to tick
  publish_update-ids h s [] rt = omega arith
  publish_update-ids h s (x ∷ xs) rt =
      if_ind (λ (y : Runtime p.Timestamp). rt.ids_read ≤ y.ids_read) s.ended (λ _. omega arith)
        (λ _. omega arith)

  publish_event-ids :
      (h : ℕ) (s : Span) (name : String) (cfg : EventConfig) (rt : Runtime p.Timestamp)
      → rt.ids_read ≤ (publish_event p clock h s name cfg rt).ids_read
  unfolding publish_event event_time publish_to tick
  publish_event-ids h s name cfg rt = ground arith

  step-ids : (c : Call) (rt : Runtime p.Timestamp) → rt.ids_read ≤ (step p id clock c rt).ids_read
  unfolding step start complete error set_attributes add_event publish_event event_time publish_to
      tick
  step-ids (hub_starts ctx hub name attrs) rt = start-ids ctx hub name attrs rt
  step-ids (starts ctx name attrs) rt = start-ids ctx _ name attrs rt
  step-ids (sets a attrs) rt =
      on_hub_ind (λ x. rt.ids_read ≤ x.ids_read) a _ rt (omega arith)
        (λ b h s e q. publish_update-ids h s attrs rt)
  step-ids (adds a name opts) rt =
      on_hub_ind (λ x. rt.ids_read ≤ x.ids_read) a _ rt (omega arith)
        (λ b h s e q. publish_event-ids h s name (configure opts zero_config) rt)
  step-ids (completes a) rt = end_span-ids a _ _ rt
  step-ids (fails a none) rt = end_span-ids a _ _ rt
  step-ids (fails a (some text)) rt = end_span-ids a _ _ rt

  run-ids :
      (cs : List Call) (rt : Runtime p.Timestamp) → rt.ids_read ≤ (run p id clock cs rt).ids_read
  unfolding run
  run-ids [] rt = omega arith
  run-ids (c ∷ cs) rt = omega (arith, step-ids c rt, run-ids cs (step p id clock c rt))

  run-Lives :
      {bound : ℕ} (u : Unique id bound) (cs : List Call) (rt : Runtime p.Timestamp)
      → Lives id bound rt
      → (run p id clock cs rt).ids_read ≤ bound
      → Lives id bound (run p id clock cs rt)
  unfolding run
  run-Lives u [] rt v b = v
  run-Lives {bound} u (c ∷ cs) rt v b =
      let rt' = step p id clock c rt in
      let l : rt'.ids_read ≤ bound = omega (arith, run-ids cs rt', b) in
      run-Lives u cs rt' (step-Lives u c rt v (omega (arith, step-ids c rt, l)) l) b

  -- In any history of calls in which no two IDs read are equal, a span with a hub publishes on that
  -- hub its start, then its updates and events, and then, if it has ended, its end: exactly one start
  -- and at most one end, nothing before the start and nothing after the end.
  pub run-Life :
      (cs : List Call)
      → Unique id (run p id clock cs start_runtime).ids_read
      → (a : ℕ) (s : Span) (h : ℕ) → (run p id clock cs start_runtime).spans a ≡ some s
      → s.hub ≡ some h
      → Life h s.ended (of_span s.span_id (run p id clock cs start_runtime).published)
  run-Life cs u a s h e q =
      (run-Lives u cs start_runtime (start_runtime-Lives _) (omega arith)).life a s h e q
