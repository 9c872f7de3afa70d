-- ===== src/State/Apply/Start.antt =====
-- `applyStarted` on each of its branches.
use sap.Base.{
  ℕ, ◌+◌, ◌≡◌, refl, sym, ap, ◌∙◌, ◌≢◌, ◌⊎◌, subst, inl, inr, Option, none, some, [], ◌∷◌, arith,
  if_pos, str_dec, ℕ_discrete, true, false, map,
}
use sap.Base.Text.{ite_ind, if_ind, Option-ind}
use sap.Base.Lists.{In, Split, In-map, In-eq}
use sap.Base.Maps.{insert}
use sap.Message.Proto.{Proto}
use sap.Message.Started.{SpanStarted}
use sap.State.Tree.{
  SpanFields, SpanState, null, span, Spans, nil, cons, append, fields_all, add_child, add_child_in,
}
use sap.State.Tree.Nodes.{fields-add_child}
use sap.State.Store.{Store, find}
use sap.State.Invariant.{Inv}
use sap.State.Lookup.{Stands, StandsIn, at_top, below, first, later, FindSpec, find-FindSpec}
use sap.State.Apply.{new_span, track, add_root, add_under, attach, apply_started}

StandsIn-append :
    {u : SpanState} {d e : ℕ} {ts : Spans} (us : Spans)
    → StandsIn u d e ts
    → StandsIn u d e (append ts us)
unfolding append
StandsIn-append us (first ts s) = first (append ts us) s
StandsIn-append us (later t s) = later t (StandsIn-append us s)

StandsIn-last :
    (n : SpanFields) (d e : ℕ) (ts : Spans)
    → d ≡ e
    → StandsIn (span n nil) d e (append ts (cons (span n nil) nil))
unfolding append
StandsIn-last n d e nil q = first nil (at_top refl q)
StandsIn-last n d e (cons t ts) q = later t (StandsIn-last n d e ts q)

fields_or : SpanFields → SpanState → SpanFields
fields_or f null = f
fields_or f (span g us) = g

mutual
  unfolding add_child fields_or

  add_child-Stands :
      {u : SpanState} {d e : ℕ} {t : SpanState}
      → Stands u d e t
      → (g : SpanFields) (us : Spans) (n : SpanFields) → u ≡ span g us
      → Stands (span n nil) (d + 1) e (add_child g.addr (span n nil) t)
  add_child-Stands {d} (at_top {f} {ts} {e} q r) g us n w =
      let same : g ≡ f = ap (fields_or g) (sym w ∙ q) in
      below f (
        subst (StandsIn (span n nil) (d + 1) (e + 1))
          (sym (if_pos (ℕ_discrete f.addr g.addr) (ap (λ h. h.addr) (sym same)) _ _))
          (StandsIn-last n (d + 1) (e + 1) (add_child_in g.addr (span n nil) ts)
            (ap (λ k. k + 1) r)))
  add_child-Stands {d} (below f {ts} {e} s) g us n w = below f (
      ite_ind (StandsIn (span n nil) (d + 1) (e + 1)) (ℕ_discrete f.addr g.addr)
        (λ _. StandsIn-append (cons (span n nil) nil) (add_child_in-StandsIn s g us n w))
        (λ _. add_child_in-StandsIn s g us n w))

  add_child_in-StandsIn :
      {u : SpanState} {d e : ℕ} {ts : Spans}
      → StandsIn u d e ts
      → (g : SpanFields) (us : Spans) (n : SpanFields) → u ≡ span g us
      → StandsIn (span n nil) (d + 1) e (add_child_in g.addr (span n nil) ts)
  add_child_in-StandsIn (first ts s) g us n w = first _ (add_child-Stands s g us n w)
  add_child_in-StandsIn (later t s) g us n w = later _ (add_child_in-StandsIn s g us n w)

-- What becomes of the span `n` that a record announces, where `s'` is the store afterwards.
pub data Outcome (s : Store) (n : SpanFields) (s' : Store) : Type 0 where
  nameless : n.span_id ≡ "" → s' ≡ s → Outcome s n s'
  duplicate : s.by_id n.span_id ≢ none → s' ≡ s → Outcome s n s'
  orphan :
      n.parent_span_id ≢ ""
      → s.by_id n.parent_span_id ≡ none
      → s.allow_unknown_parents ≡ false
      → s' ≡ s
      → Outcome s n s'
  root :
      n.span_id ≢ ""
      → s.by_id n.span_id ≡ none
      → s.by_id n.parent_span_id ≡ none
      → (n.parent_span_id ≡ "") ⊎ (s.allow_unknown_parents ≡ true)
      → s'.roots ≡ append s.roots (cons (span n nil) nil)
      → s'.by_id ≡ insert n.span_id n.addr s.by_id
      → Outcome s n s'
  child :
      n.span_id ≢ ""
      → s.by_id n.span_id ≡ none
      → (g : SpanFields) (us : Spans) (d : ℕ) → find s n.parent_span_id ≡ (span g us, d)
      → StandsIn (span n nil) (d + 1) 0 s'.roots
      → Split (fields_all s'.roots) (n ∷ []) (fields_all s.roots)
      → s'.by_id ≡ insert n.span_id n.addr s.by_id
      → Outcome s n s'

module _ {s : Store} (v : Inv s) (n : SpanFields) (named : n.span_id ≢ "")
    (new : s.by_id n.span_id ≡ none) where
  child-Outcome :
      (a : ℕ) (r : SpanState × ℕ)
      → s.by_id n.parent_span_id ≡ some a
      → find s n.parent_span_id ≡ r
      → FindSpec n.parent_span_id s r
      → Outcome s n (add_under a n s)
  unfolding add_under track
  child-Outcome a (null, d) e q (no_entry, _) = absurd (cc (sym e ∙ no_entry))
  child-Outcome a (span g us, d) e q (_, entry, st) =
      let at : g.addr ≡ a = same (sym entry ∙ e) in
      child named new g us d q
        (subst (λ b. StandsIn (span n nil) (d + 1) 0 (add_child_in b (span n nil) s.roots)) at
          (add_child_in-StandsIn st g us n refl))
        (fields-add_child a n s.roots in_tree v.indexed.distinct) refl
    where
      same : some g.addr ≡ some a → g.addr ≡ a
      same w = ground arith

      in_tree : In a (map (λ h. h.addr) (fields_all s.roots))
      in_tree =
          let (h, i, _, at) = v.indexed.sound n.parent_span_id a e in
          In-eq at (In-map (λ h. h.addr) h i)

  attach-Outcome : (o : Option ℕ) → s.by_id n.parent_span_id ≡ o → Outcome s n (attach o n s)
  unfolding attach add_root track
  attach-Outcome (some a) e =
      child-Outcome a (find s n.parent_span_id) e refl (find-FindSpec n.parent_span_id v)
  attach-Outcome none e =
      ite_ind (Outcome s n) (str_dec n.parent_span_id "") (λ q. root named new e (inl q) refl refl)
        (λ q.
          if_ind (Outcome s n) s.allow_unknown_parents (λ h. root named new e (inr h) refl refl)
            (λ h. orphan q e h refl))

-- A start record has one of five outcomes. With no ID, with an ID that is tracked already, or with
-- a parent that is not tracked while unknown parents are not allowed, it changes nothing. If its
-- parent is found at depth d, the new span is put in at depth d + 1, and is the only new object.
-- Otherwise it becomes the last root. Only a record whose ID is not empty and not tracked has one of
-- the last two outcomes. A new span is entered in `byID` under its ID.
pub apply_started-Outcome :
    {s : Store} (p : Proto) (m : SpanStarted p.Timestamp)
    → Inv s
    → Outcome s (new_span p s.next_addr m) (apply_started p (some m) s)
unfolding apply_started
apply_started-Outcome {s} p m v =
    let n = new_span p s.next_addr m in
    ite_ind (Outcome s n) (str_dec n.span_id "") (λ e. nameless e refl)
      λ q.
        Option-ind (Outcome s n) (s.by_id n.span_id)
          (λ e. attach-Outcome v n q e (s.by_id n.parent_span_id) refl)
          (λ a e. duplicate (λ q. absurd (cc (sym e ∙ q))) refl)
