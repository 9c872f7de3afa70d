-- ===== src/State/Marks.antt =====
-- `MarkOpenSpansStale` in a well-formed store: the mark of every span, old or new.
use sap.Base.{◌≡◌, sym, ap, ◌∙◌, inl, inr, Option, none, some, arith, Bool, true, false}
use sap.Base.Text.{Bool-cases, Option-cases}
use sap.Base.Lists.{In, In-unique}
use sap.Message.Proto.{Time}
use sap.State.Tree.{SpanFields, fields_all}
use sap.State.Index.{Indexed-ids}
use sap.State.Store.{Store, mark_open_spans_stale}
use sap.State.Store.Stale.{Source, mark_children-keeps, mark_children-marks, mark_children-Source}
use sap.State.Invariant.{Inv}

-- The mark of a span after the call.
abbrev pub mark_of : Option Time → Bool → Time → Option Time
mark_of (some t) ended at = some t
mark_of none true at = none
mark_of none false at = some at

module _ {s : Store} (v : Inv s) (f : SpanFields) (i : In f (fields_all s.roots)) (at : Time) where
  abbrev after : Option Time
  after = (mark_open_spans_stale s at).stale_open_at f.span_id

  same_object : (g : SpanFields) → In g (fields_all s.roots) → g.span_id ≡ f.span_id → g ≡ f
  same_object g j e =
      In-unique (λ h. h.addr) g f (fields_all s.roots) v.indexed.distinct j i
        (Indexed-ids v.indexed g f j i e)

  Source-mark :
      (t : Time)
      → Source (fields_all s.roots) at s.stale_open_at f.span_id t
      → some t ≡ mark_of (s.stale_open_at f.span_id) f.ended at
  Source-mark t (inl e) = ground arith
  Source-mark t (inr (e, q, (g, j, o, r))) =
      let o' : f.ended ≡ false = sym (ap (λ h. h.ended) (same_object g j r)) ∙ o in ground arith

  unmarked : after ≡ none → none ≡ mark_of (s.stale_open_at f.span_id) f.ended at
  unfolding mark_open_spans_stale
  unmarked e = elim (Option-cases (s.stale_open_at f.span_id)) [
    | inr (t, q) ↦
        absurd (cc (sym (mark_children-keeps s.roots at s.stale_open_at f.span_id t q) ∙ e))
    | inl q ↦ elim (Bool-cases f.ended) [
      | inl c ↦ ground arith
      | inr o ↦
          let (t, r) = mark_children-marks s.roots at s.stale_open_at f i o in
          absurd (cc (sym r ∙ e))
    ]
  ]

  -- In a well-formed store a call marks a span of the tree, at any depth, exactly if it is open
  -- and has no mark; a mark that is there keeps its time, also when its span has ended since.
  pub mark_open_spans_stale-mark_of : after ≡ mark_of (s.stale_open_at f.span_id) f.ended at
  unfolding mark_open_spans_stale
  mark_open_spans_stale-mark_of = elim (Option-cases after) [
    | inl e ↦ e ∙ unmarked e
    | inr (t, e) ↦ e ∙ Source-mark t (mark_children-Source s.roots at s.stale_open_at f.span_id t e)
  ]
