-- ===== src/State/Store/Stale.antt =====
-- `MarkOpenSpansStale`: which spans get a mark, and with which time.
use sap.Base.{
  subst, ◌≡◌, refl, sym, ap, ◌∙◌, ◌⊎◌, inl, inr, String, none, some, List, [], ◌∷◌, ◌++◌, false,
  arith, str_dec,
}
use sap.Base.Int.{if◌then◌else◌}
use sap.Base.Text.{Bool-cases, Option-cases}
use sap.Base.Lists.{In, here, there}
use sap.Base.Maps.{Map}
use sap.Message.Proto.{Time}
use sap.State.Tree.{
  SpanFields, SpanState, null, span, Spans, nil, cons, fields, fields_all, mark_one,
  mark_open_span_stale, mark_children,
}

-- The marks over the list of objects, in their order.
mark_fields : List SpanFields → Time → Map Time → Map Time
mark_fields [] at m = m
mark_fields (f ∷ fs) at m = mark_fields fs at (if f.ended then m else mark_one f.span_id at m)

mark_fields-append :
    (fs gs : List SpanFields) (at : Time) (m : Map Time)
    → mark_fields (fs ++ gs) at m ≡ mark_fields gs at (mark_fields fs at m)
unfolding mark_fields
mark_fields-append [] gs at m = refl
mark_fields-append (f ∷ fs) gs at m = mark_fields-append fs gs at _

mutual
  unfolding fields mark_open_span_stale mark_fields

  mark_open-fields :
      (t : SpanState) (at : Time) (m : Map Time)
      → mark_open_span_stale t at m ≡ mark_fields (fields t) at m
  mark_open-fields null at m = refl
  mark_open-fields (span f ts) at m = mark_children-fields ts at _

  mark_children-fields :
      (ts : Spans) (at : Time) (m : Map Time)
      → mark_children ts at m ≡ mark_fields (fields_all ts) at m
  mark_children-fields nil at m = refl
  mark_children-fields (cons t ts) at m =
      mark_children-fields ts at (mark_open_span_stale t at m)
      ∙ ap (mark_fields (fields_all ts) at) (mark_open-fields t at m)
      ∙ sym (mark_fields-append (fields t) (fields_all ts) at m)

step_keeps :
    (f : SpanFields) (at : Time) (m : Map Time) (id : String) (t : Time)
    → m id ≡ some t
    → (if f.ended then m else mark_one f.span_id at m) id ≡ some t
unfolding mark_one
step_keeps f at m id t e = ground arith

step_marks :
    (f : SpanFields) (at : Time) (m : Map Time)
    → f.ended ≡ false
    → (t : Time) × ((if f.ended then m else mark_one f.span_id at m) f.span_id ≡ some t)
unfolding mark_one
step_marks f at m e = elim (Option-cases (m f.span_id)) [
  | inl q ↦ (at, ground arith)
  | inr (t, q) ↦ (t, step_keeps f at m f.span_id t q)
]

-- Where a mark comes from: it was there, or an open span with that ID had none.
abbrev pub Source : List SpanFields → Time → Map Time → String → Time → Type 0
Source fs at m id t =
    (m id ≡ some t)
    ⊎ ((m id ≡ none)
        × (t ≡ at)
        × ((f : SpanFields) × In f fs × (f.ended ≡ false) × (f.span_id ≡ id)))

step-Source :
    (f : SpanFields) (fs : List SpanFields) (at : Time) (m : Map Time) (id : String) (t : Time)
    → (if f.ended then m else mark_one f.span_id at m) id ≡ some t
    → Source (f ∷ fs) at m id t
unfolding mark_one
step-Source f fs at m id t e = elim (Bool-cases f.ended) [
  | inl c ↦ inl (ground arith)
  | inr o ↦ elim (Option-cases (m f.span_id)) [
    | inr (u, q) ↦ inl (ground arith)
    | inl q ↦ elim (str_dec id f.span_id) [
      | yes r ↦ inr (ground arith, ground arith, (f, here f refl, o, sym r))
      | no r ↦ inl (ground arith)
    ]
  ]
]

fields_keep :
    (fs : List SpanFields) (at : Time) (m : Map Time) (id : String) (t : Time)
    → m id ≡ some t
    → mark_fields fs at m id ≡ some t
unfolding mark_fields
fields_keep [] at m id t e = e
fields_keep (f ∷ fs) at m id t e = fields_keep fs at _ id t (step_keeps f at m id t e)

fields_mark :
    (fs : List SpanFields) (at : Time) (m : Map Time) (f : SpanFields)
    → In f fs
    → f.ended ≡ false
    → (t : Time) × (mark_fields fs at m f.span_id ≡ some t)
unfolding mark_fields
fields_mark [] at m f i o = elim i [ ]
fields_mark (g ∷ fs) at m f (here _ e) o =
    let (t, q) = step_marks f at m o in
    (
      t,
      fields_keep fs at _ f.span_id t (
          subst
            (λ (h : SpanFields).
              (if h.ended then m else mark_one h.span_id at m) f.span_id ≡ some t)
            e q),
    )
fields_mark (g ∷ fs) at m f (there _ i) o = fields_mark fs at _ f i o

fields-Source :
    (fs : List SpanFields) (at : Time) (m : Map Time) (id : String) (t : Time)
    → mark_fields fs at m id ≡ some t
    → Source fs at m id t
unfolding mark_fields
fields-Source [] at m id t e = inl e
fields-Source (f ∷ fs) at m id t e =
    later (fields-Source fs at (if f.ended then m else mark_one f.span_id at m) id t e)
  where
    later :
        Source fs at (if f.ended then m else mark_one f.span_id at m) id t
        → Source (f ∷ fs) at m id t
    later (inl q) = step-Source f fs at m id t q
    later (inr (q, r, (g, i, o, e))) = elim (Option-cases (m id)) [
      | inl w ↦ inr (w, r, (g, there f i, o, e))
      | inr (u, w) ↦ absurd (cc (step_keeps f at m id u w))
    ]

-- A mark that is there stays as it is.
pub mark_children-keeps :
    (ts : Spans) (at : Time) (m : Map Time) (id : String) (t : Time)
    → m id ≡ some t
    → mark_children ts at m id ≡ some t
mark_children-keeps ts at m id t e =
    rw (mark_children-fields ts at m) (fields_keep (fields_all ts) at m id t e)

-- Every open span of the tree has a mark afterwards.
pub mark_children-marks :
    (ts : Spans) (at : Time) (m : Map Time) (f : SpanFields)
    → In f (fields_all ts)
    → f.ended ≡ false
    → (t : Time) × (mark_children ts at m f.span_id ≡ some t)
mark_children-marks ts at m f i o =
    let (t, e) = fields_mark (fields_all ts) at m f i o in (t, rw (mark_children-fields ts at m) e)

-- No other mark appears.
pub mark_children-Source :
    (ts : Spans) (at : Time) (m : Map Time) (id : String) (t : Time)
    → mark_children ts at m id ≡ some t
    → Source (fields_all ts) at m id t
mark_children-Source ts at m id t e =
    fields-Source (fields_all ts) at m id t (rw (mark_children-fields ts at m) at e)
