-- ===== src/State/Apply/Frozen.antt =====
-- Spans that have ended, and spans that a record does not name.
use sap.Base.{
  ℕ, ◌≡◌, refl, sym, ap, ◌∙◌, subst, String, Option, none, some, if_neg, str_dec, ℕ_discrete, true,
  false,
}
use sap.Base.Text.{ite_ind, if_ind, Option-ind}
use sap.Base.Lists.{In, In-map, In-right, In-eq, In-unique}
use sap.Message.{
  Kind, not_set, span_started, span_updated, span_ended, span_event, Record, which_kind,
  get_span_started, get_span_updated, get_span_ended, get_span_event,
}
use sap.Message.Proto.{Proto}
use sap.Message.Started.{SpanStarted}
use sap.State.Tree.{SpanFields, fields_all, read_in, write_in}
use sap.State.Tree.Nodes.{written, fields-snoc, fields-write_all, fields-add_child, read_in-In}
use sap.State.Store.{Store}
use sap.State.Invariant.{Inv}
use sap.State.Apply.{
  new_span, track, add_root, add_under, attach, apply_started, update_open, apply_updated,
  apply_ended, apply_event, apply,
}

module _ {s : Store} (v : Inv s) (f : SpanFields) (i : In f (fields_all s.roots)) where
  abbrev Stays : Store → Type 0
  Stays s' = In f (fields_all s'.roots)

  attach-Stays :
      (o : Option ℕ) (n : SpanFields) → s.by_id n.parent_span_id ≡ o → Stays (attach o n s)
  unfolding attach add_root add_under track
  attach-Stays (some a) n e =
      let (g, j, _, at) = v.indexed.sound n.parent_span_id a e in
      In-right f
        (fields-add_child a n s.roots (In-eq at (In-map (λ h. h.addr) g j)) v.indexed.distinct) i
  attach-Stays none n e =
      ite_ind Stays (str_dec n.parent_span_id "") (λ _. In-right f (fields-snoc s.roots n) i)
        (λ _.
          if_ind Stays s.allow_unknown_parents (λ _. In-right f (fields-snoc s.roots n) i) (λ _. i))

  -- A write at the address of an open object leaves the ended ones alone.
  update_open-Stays :
      (id : String) (g : SpanFields → SpanFields) → f.ended ≡ true → Stays (update_open id g s)
  unfolding update_open
  update_open-Stays id g c =
      Option-ind Stays (s.by_id id) (λ _. i)
        λ a _.
          Option-ind Stays (read_in a s.roots) (λ _. i)
            λ h e. if_ind Stays h.ended (λ _. i) (λ o. other a h e o)
    where
      other :
          (a : ℕ) (h : SpanFields)
          → read_in a s.roots ≡ some h
          → h.ended ≡ false
          → Stays (record s { roots = write_in a g s.roots })
      other a h e o =
          let (j, at) = read_in-In a s.roots h e in
          let away : ¬ (f.addr ≡ a) = λ q. elsewhere h j o (q ∙ sym at) in
          let same : f ≡ written a g f = sym (if_neg (ℕ_discrete f.addr a) away (g f) f) in
          subst (In f) (sym (fields-write_all a g s.roots))
            (In-eq (sym same) (In-map (written a g) f i))
        where
          elsewhere :
              (h : SpanFields) → In h (fields_all s.roots) → h.ended ≡ false → f.addr ≡ h.addr → ⊥
          elsewhere h j o q =
              let r : f ≡ h =
                In-unique (λ k. k.addr) f h (fields_all s.roots) v.indexed.distinct i j q in
              absurd (cc (sym c ∙ ap (λ k. k.ended) r ∙ o))

  module _ (p : Proto) where
    apply_started-Stays : (m : Option (SpanStarted p.Timestamp)) → Stays (apply_started p m s)
    unfolding apply_started
    apply_started-Stays none = i
    apply_started-Stays (some m) =
        let n = new_span p s.next_addr m in
        ite_ind Stays (str_dec n.span_id "") (λ _. i)
          λ _.
            Option-ind Stays (s.by_id n.span_id)
              (λ _. attach-Stays (s.by_id n.parent_span_id) n refl) (λ a _. i)

    apply_kind-Stays :
        (at : Option p.Timestamp) (k : Kind p.Timestamp)
        → f.ended ≡ true
        → Stays (apply p (some (record { emitted_at = at; kind = k })) s)
    unfolding apply which_kind get_span_started get_span_updated get_span_ended get_span_event
        apply_updated apply_ended apply_event
    apply_kind-Stays at not_set c = i
    apply_kind-Stays at (span_started m) c = apply_started-Stays (some m)
    apply_kind-Stays at (span_updated m) c = update_open-Stays _ _ c
    apply_kind-Stays at (span_ended m) c = update_open-Stays _ _ c
    apply_kind-Stays at (span_event m) c = update_open-Stays _ _ c

    -- In a well-formed store, no record removes a span that has ended or changes any of its fields:
    -- attributes, events, end time, terminal type and error message are final. (It may still get
    -- children.)
    pub apply-frozen : (r : Option (Record p.Timestamp)) → f.ended ≡ true → Stays (apply p r s)
    unfolding apply
    apply-frozen none c = i
    apply-frozen (some r) c = apply_kind-Stays r.emitted_at r.kind c
