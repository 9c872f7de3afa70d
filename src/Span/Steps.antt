-- ===== src/Span/Steps.antt =====
-- The lives of the spans through each method of sap.go.
use sap.Base.{
  ℕ, suc, ◌≤◌, ◌≡◌, refl, subst, String, Option, none, some, List, [], ◌∷◌, true, str_dec, arith,
}
use sap.Base.Int.{if◌then◌else◌}
use sap.Base.Text.{ite_ind, if_ind, Option-ind}
use sap.Message.{build}
use sap.Message.Attributes.{Attribute, or_empty}
use sap.Message.Started
use sap.Message.Updated
use sap.Message.Ended
use sap.Message.Events
use sap.Message.Events.{Severity}
use sap.Message.Ended.{TerminalType}
use sap.Message.Proto.{Proto, Time, is_zero}
use sap.Span.{
  Span, Runtime, Context, EventOption, EventConfig, configure, zero_config, alloc, publish_to, tick,
  on_hub, read_span, from_context,
}
use sap.Span.Records.{started_record, updated_record, event_record, ended_record}
use sap.Span.Methods.{
  inherit, new_span, start_with_hub, set_attributes, publish_update, add_event, publish_event,
  event_time, end_span, publish_end,
}
use sap.Span.Life.{Life, updated, noted, ended, Lives, Unique, of_span}
use sap.Span.Changes.{publish-Lives, publish_alive-Lives}
use sap.Span.Births.{alloc-Lives, start-Lives}

-- A method keeps what holds of the runtime and of what its action makes.
pub on_hub_ind :
    {T : Type 0} (P : Runtime T → Type 0) (a : Option ℕ)
    (act : ℕ → ℕ → Span → Runtime T → Runtime T) (rt : Runtime T)
    → P rt
    → ((b h : ℕ) (s : Span) → rt.spans b ≡ some s → s.hub ≡ some h → P (act b h s rt))
    → P (on_hub a act rt)
unfolding on_hub
on_hub_ind P none act rt x f = x
on_hub_ind P (some b) act rt x f =
    Option-ind P (rt.spans b) (λ _. x) (λ s e. Option-ind P s.hub (λ _. x) (λ h q. f b h s e q))

module _ (p : Proto) (clock : ℕ → Time) {id : ℕ → String} {bound : ℕ} (u : Unique id bound)
    (rt : Runtime p.Timestamp) (v : Lives id bound rt) (l : rt.ids_read ≤ bound) where
  tick-Lives : Lives id bound (tick rt)
  unfolding tick
  tick-Lives = record {
    fresh = v.fresh;
    life = v.life;
    named = v.named;
    single = v.single;
    unread = v.unread;
  }

  pub set_attributes-Lives :
      (a : Option ℕ) (attrs : List (Option Attribute))
      → Lives id bound (set_attributes p clock a attrs rt)
  unfolding set_attributes publish_update updated_record publish_to tick build Updated.get_span_id
      or_empty
  set_attributes-Lives a attrs =
      on_hub_ind (Lives id bound) a _ rt v (λ b h s e q. update b h s e q attrs)
    where
      update :
          (b h : ℕ) (s : Span)
          → rt.spans b ≡ some s
          → s.hub ≡ some h
          → (attrs : List (Option Attribute)) → Lives id bound (publish_update p clock h s attrs rt)
      update b h s e q [] = v
      update b h s e q (x ∷ xs) =
          if_ind (Lives id bound) s.ended (λ _. v)
            (λ alive.
              publish_alive-Lives rt v b s h _ (suc rt.clock_read) e q refl alive (λ ks. updated _)
                u l)

  pub add_event-Lives :
      (a : Option ℕ) (name : String) (opts : List EventOption)
      → Lives id bound (add_event p clock a name opts rt)
  unfolding add_event publish_event event_time event_record publish_to tick build Events.get_span_id
      or_empty
  add_event-Lives a name opts = on_hub_ind (Lives id bound) a _ rt v (λ b h s e q.
      if_ind
        (λ (x : Time × Runtime p.Timestamp). Lives id bound (
          if s.ended
          then x.1
          else publish_to h (event_record p clock s name x.0 (configured opts) x.1) (tick x.1)))
        (is_zero (configured opts).at)
        (λ _.
          if_ind (Lives id bound) s.ended (λ _. tick-Lives)
            (λ alive.
              publish_alive-Lives rt v b s h _ (suc (suc rt.clock_read)) e q refl alive
                (λ ks. noted _) u l))
        (λ _.
          if_ind (Lives id bound) s.ended (λ _. v)
            (λ alive.
              publish_alive-Lives rt v b s h _ (suc rt.clock_read) e q refl alive (λ ks. noted _) u
                l)))
    where
      configured : List EventOption → EventConfig
      configured opts = configure opts zero_config

  pub end_span-Lives :
      (a : Option ℕ) (type : TerminalType) (message : String)
      → Lives id bound (end_span p clock a type message rt)
  unfolding end_span publish_end ended_record publish_to tick build Ended.get_span_id or_empty
  end_span-Lives a type message = on_hub_ind (Lives id bound) a _ rt v (λ b h s e q.
      if_ind (Lives id bound) s.ended (λ _. v)
        (λ alive.
          publish-Lives rt v b s (record s { ended = true }) h _ (suc (suc rt.clock_read)) e q refl
            refl refl
            (λ life. ended _ (subst (λ b. Life h b (of_span s.span_id rt.published)) alive life)) u
            l))

  -- A start reads at most two IDs, which must be within the bound.
  pub start_with_hub-Lives :
      (ctx : Context) (hub : Option ℕ) (name : String) (attrs : List (Option Attribute))
      → (start_with_hub p id clock ctx hub name attrs rt).2.ids_read ≤ bound
      → Lives id bound (start_with_hub p id clock ctx hub name attrs rt).2
  unfolding start_with_hub new_span inherit started_record alloc publish_to tick build
      Started.get_span_id or_empty
  start_with_hub-Lives ctx none name attrs b = alloc-Lives rt v _ refl
  start_with_hub-Lives ctx (some h) name attrs b =
      start-Lives rt v _ h _ _ (suc (suc rt.clock_read))
        (inherit id (read_span (from_context ctx) rt) rt).2 refl refl refl refl refl
        (used (read_span (from_context ctx) rt)) u b
    where
      used : (o : Option Span) → 1 ≤ (inherit id o rt).2
      used none = omega arith
      used (some s) =
          ite_ind (λ (x : String × String × ℕ). 1 ≤ x.2) (str_dec s.trace_id "") (λ _. omega arith)
            (λ _. omega arith)
