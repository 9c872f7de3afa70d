-- ===== src/Span/Child.antt =====
-- The context that a start of sap.go returns, and a span started from it.
use sap.Base.{
  ℕ, ◌<◌, ◌≡◌, refl, sym, ap, subst, ◌∙◌, ◌≢◌, String, Option, none, some, List, [], ◌∷◌, ◌++◌,
  false, if_pos, if_neg, str_dec, ℕ_discrete, arith,
}
use sap.Base.Text.{ite_ind, Option-ind}
use sap.Message.Attributes.{Attribute}
use sap.Message.Proto.{Proto, Time}
use sap.Span.{
  Span, Runtime, Context, from_context, hub_from_context, context_with_span, context_with_hub,
  bind_hub, hub_of, read_span, put_span, alloc, publish_to, tick,
}
use sap.Span.Records.{started_record}
use sap.Span.Methods.{inherit, new_span, start_with_hub, start}

put_span-hit : (a : ℕ) (s : Span) (m : ℕ → Option Span) → put_span a s m a ≡ some s
unfolding put_span
put_span-hit a s m = if_pos (ℕ_discrete a a) refl _ _

put_span-miss : (a b : ℕ) (s : Span) (m : ℕ → Option Span) → b ≢ a → put_span a s m b ≡ m b
unfolding put_span
put_span-miss a b s m n = if_neg (ℕ_discrete b a) n _ _

-- The hub of a context after the start on the hub `h`.
hub_from_context-bind_hub :
    (ctx : Context) (h : ℕ) → hub_from_context (bind_hub ctx h (hub_from_context ctx)) ≡ some h
unfolding hub_from_context bind_hub context_with_hub
hub_from_context-bind_hub ctx h =
    Option-ind (λ o. hub_from_context o ≡ some h) (hub_from_context ctx) (λ _. refl)
      (λ g e.
        ite_ind (λ o. hub_from_context o ≡ some h) (ℕ_discrete g h) (λ q. e ∙ ap some q)
          (λ _. refl))

hub_of-parent : (o : Option ℕ) (s : Span) (h : ℕ) → s.hub ≡ some h → hub_of o (some s) ≡ some h
unfolding hub_of
hub_of-parent o s h q = ap (λ g. elim g [ none ↦ o | some g ↦ some g ]) q

inherit-parent :
    {T : Type 0} (id : ℕ → String) (s : Span) (rt : Runtime T)
    → s.trace_id ≢ ""
    → inherit id (some s) rt ≡ (s.trace_id, s.span_id, 1)
unfolding inherit
inherit-parent id s rt n = if_neg (str_dec s.trace_id "") n _ _

module _ (p : Proto) (id : ℕ → String) (clock : ℕ → Time) where
  -- What holds of the result of a start under the span `s` at `a`, of the hub `h`.
  abbrev pub ChildOf :
      ℕ
      → Span
      → ℕ
      → String
      → List (Option Attribute)
      → Runtime p.Timestamp
      → Context × ℕ × Runtime p.Timestamp
      → Type 0
  ChildOf a s h name attrs rt x =
      (t : Span) × (now : Runtime p.Timestamp) × (x.2.spans x.1 ≡ some t)
      × (x.2.spans a ≡ some s)
      × (from_context x.0 ≡ some x.1)
      × (hub_from_context x.0 ≡ some h)
      × (t.hub ≡ some h)
      × (t.span_id ≡ id rt.ids_read)
      × (t.trace_id ≡ s.trace_id)
      × (t.parent_id ≡ s.span_id)
      × (t.ended ≡ false)
      × (x.2.published ≡ rt.published ++ (h, started_record p clock t name attrs now) ∷ [])

  -- `Start` with a context whose span is in the runtime and has a hub and a trace, ended or not: the
  -- new span has that hub, that trace and the next new ID and is a child of that span, the context returned carries
  -- the new span and the hub, and one record is published, on that hub, which starts the new span.
  pub start-ChildOf :
      (ctx : Context) (name : String) (attrs : List (Option Attribute)) (rt : Runtime p.Timestamp)
      (a : ℕ) (s : Span) (h : ℕ)
      → from_context ctx ≡ some a
      → rt.spans a ≡ some s
      → a < rt.next
      → s.hub ≡ some h
      → s.trace_id ≢ ""
      → ChildOf a s h name attrs rt (start p id clock ctx name attrs rt)
  unfolding start start_with_hub new_span alloc publish_to tick read_span context_with_span
      from_context hub_from_context
  start-ChildOf ctx name attrs rt a s h e q l eh n =
      subst (λ g. ChildOf a s h name attrs rt (start_with_hub p id clock ctx g name attrs rt))
        (sym
          (ap (hub_of (hub_from_context ctx)) found ∙ hub_of-parent (hub_from_context ctx) s h eh))
        (
          _,
          (new_span id h (read_span (from_context ctx) rt) rt).1,
          put_span-hit rt.next _ rt.spans,
          put_span-miss rt.next a _ rt.spans (λ w. absurd (omega (arith, w, l))) ∙ q,
          refl,
          hub_from_context-bind_hub ctx h,
          refl,
          refl,
          ap (λ (x : String × String × ℕ). x.0) ids,
          ap (λ (x : String × String × ℕ). x.1) ids,
          refl,
          refl,
        )
    where
      found : read_span (from_context ctx) rt ≡ some s
      found = ap (λ o. read_span o rt) e ∙ q

      ids : inherit id (read_span (from_context ctx) rt) rt ≡ (s.trace_id, s.span_id, 1)
      ids = ap (λ o. inherit id o rt) found ∙ inherit-parent id s rt n
