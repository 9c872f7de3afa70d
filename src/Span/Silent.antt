-- ===== src/Span/Silent.antt =====
-- Recording of sap.go, and how many records the methods of a span publish.
use sap.Base.{
  ℕ, ◌+◌, ◌≡◌, refl, subst, String, Option, none, some, List, [], ◌∷◌, ◌++◌, Bool, true, false,
  arith,
}
use sap.Base.Int.{if◌then◌else◌}
use sap.Base.Lists.{length, length-append}
use sap.Base.Text.{if_ind}
use sap.Message.{Record}
use sap.Message.Attributes.{Attribute}
use sap.Message.Ended.{TerminalType}
use sap.Message.Proto.{Proto, Time, is_zero}
use sap.Span.{
  Span, Runtime, EventOption, EventConfig, configure, zero_config, recording, recording_of,
  read_span, on_hub, publish_to, tick,
}
use sap.Span.Records.{event_record}
use sap.Span.Methods.{
  set_attributes, publish_update, add_event, publish_event, event_time, end_span, publish_end,
  complete, error,
}

-- How many records more than before were published.
abbrev pub Publishes : {T : Type 0} → ℕ → Runtime T → Runtime T → Type 0
Publishes n rt rt' = length rt'.published ≡ length rt.published + n

abbrev one_if : Bool → ℕ
one_if b = if b then 1 else 0

abbrev none_if : Bool → ℕ
none_if b = if b then 0 else 1

alive_count : (b : Bool) → none_if b ≡ one_if (if b then false else true)
alive_count true = refl
alive_count false = refl

-- A method publishes one record if the span is recording and none if it is not, if its action does
-- so by whether the span has ended.
on_hub-Publishes :
    {T : Type 0} (a : Option ℕ) (act : ℕ → ℕ → Span → Runtime T → Runtime T) (rt : Runtime T)
    → ((b h : ℕ) (s : Span) → Publishes (if s.ended then 0 else 1) rt (act b h s rt))
    → Publishes (if recording a rt then 1 else 0) rt (on_hub a act rt)
unfolding on_hub recording recording_of read_span
on_hub-Publishes none act rt f = omega arith
on_hub-Publishes (some b) act rt f = on_span (rt.spans b)
  where
    on_its_hub :
        (s : Span) (g : Option ℕ)
        → Publishes
            (if elim g [ none ↦ false | some h ↦ if s.ended then false else true ] then 1 else 0)
            rt
            (elim g [ none ↦ rt | some h ↦ act b h s rt ])
    on_its_hub s none = omega arith
    on_its_hub s (some h) =
        subst (λ n. Publishes n rt (act b h s rt)) (alive_count s.ended) (f b h s)

    on_span :
        (o : Option Span)
        → Publishes
            (if recording_of o then 1 else 0)
            rt
            (elim o [ none ↦ rt | some s ↦ elim s.hub [ none ↦ rt | some h ↦ act b h s rt ] ])
    on_span none = omega arith
    on_span (some s) = on_its_hub s s.hub

by_ended :
    {T : Type 0} (b : Bool) (rt x y : Runtime T)
    → Publishes 0 rt x
    → Publishes 1 rt y
    → Publishes (if b then 0 else 1) rt (if b then x else y)
by_ended true rt x y e f = e
by_ended false rt x y e f = f

module _ (p : Proto) (clock : ℕ → Time) (rt : Runtime p.Timestamp) where
  one_more :
      (h : ℕ) (r : Record p.Timestamp)
      → length (rt.published ++ (h, r) ∷ []) ≡ length rt.published + 1
  one_more h r = length-append rt.published ((h, r) ∷ [])

  event-Publishes :
      (h : ℕ) (s : Span) (name : String) (cfg : EventConfig)
      → Publishes (if s.ended then 0 else 1) rt (publish_event p clock h s name cfg rt)
  unfolding publish_event event_time publish_to tick
  event-Publishes h s name cfg =
      if_ind
        (λ (x : Time × Runtime p.Timestamp). Publishes (if s.ended then 0 else 1) rt (
          if s.ended
          then x.1
          else publish_to h (event_record p clock s name x.0 cfg x.1) (tick x.1)))
        (is_zero cfg.at) (λ _. by_ended s.ended rt _ _ (omega arith) (one_more h _))
        (λ _. by_ended s.ended rt _ _ (omega arith) (one_more h _))

  end-Publishes :
      (b h : ℕ) (s : Span) (type : TerminalType) (message : String)
      → Publishes (if s.ended then 0 else 1) rt (publish_end p clock b h s type message rt)
  unfolding publish_end publish_to tick
  end-Publishes b h s type message = by_ended s.ended rt rt _ (omega arith) (one_more h _)

  update-Publishes :
      (h : ℕ) (s : Span) (x : Option Attribute) (xs : List (Option Attribute))
      → Publishes (if s.ended then 0 else 1) rt (publish_update p clock h s (x ∷ xs) rt)
  unfolding publish_update publish_to tick
  update-Publishes h s x xs = by_ended s.ended rt rt _ (omega arith) (one_more h _)

  -- While a span is recording each of its methods publishes exactly one record, `SetAttributes` if it
  -- is given attributes; a nil span, one without a hub and one that has ended publish none.
  pub recording-Publishes :
      (a : Option ℕ)
      → let n : ℕ = if recording a rt then 1 else 0 in
        ((x : Option Attribute) (xs : List (Option Attribute))
          → Publishes n rt (set_attributes p clock a (x ∷ xs) rt))
        × ((name : String) (opts : List EventOption)
            → Publishes n rt (add_event p clock a name opts rt))
        × Publishes n rt (complete p clock a rt)
        × ((err : Option String) → Publishes n rt (error p clock a err rt))
  unfolding set_attributes add_event end_span complete error
  recording-Publishes a = (
    λ x xs. on_hub-Publishes a _ rt (λ b h s. update-Publishes h s x xs),
    λ name opts.
        on_hub-Publishes a _ rt (λ b h s. event-Publishes h s name (configure opts zero_config)),
    on_hub-Publishes a _ rt (λ b h s. end-Publishes b h s TerminalType.complete ""),
    λ err. failed err,
  )
    where
      failed :
          (err : Option String)
          → Publishes (if recording a rt then 1 else 0) rt (error p clock a err rt)
      failed none = on_hub-Publishes a _ rt (λ b h s. end-Publishes b h s TerminalType.error "")
      failed (some text) =
          on_hub-Publishes a _ rt (λ b h s. end-Publishes b h s TerminalType.error text)
