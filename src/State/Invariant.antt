-- ===== src/State/Invariant.antt =====
-- The well-formedness of a store, and the operations of state/state.go on a well-formed store.
use sap.Base.{
  ℕ, ◌-◌, ◌≡◌, refl, sym, ap, ◌∙◌, ◌≢◌, inl, inr, String, Option, none, some, List, [], ◌∷◌, Bool,
  if_pos, if_neg, str_dec, ℕ_discrete, subst,
}
use sap.Base.Int.{ℤ, pos, pos_part, leb, leb_ℤ}
use sap.Base.Text.{Option-cases, ite_ind, if_ind, Option-ind}
use sap.Base.Lists.{Split, In-map, In-eq}
use sap.Base.Remove.{In_dec}
use sap.Base.Maps.{delete_all-hit, delete_all-miss}
use sap.Message.{
  Kind, not_set, span_started, span_updated, span_ended, span_event, Record, which_kind,
  get_span_started, get_span_updated, get_span_ended, get_span_event,
}
use sap.Message.Started.{SpanStarted}
use sap.Message.Updated.{SpanUpdated}
use sap.Message.Ended.{SpanEnded}
use sap.Message.Events.{SpanEvent}
use sap.Message.Proto.{Proto, Time}
use sap.State.Tree.{
  SpanFields, Spans, nil, cons, count, take_spans, fields, fields_all, mark_children, read_in,
  write_in,
}
use sap.State.Tree.Nodes.{written, fields-snoc, fields-cut, fields-write_all, fields-add_child}
use sap.State.Index.{ids, Indexed, Indexed-insert, Indexed-remove, Indexed-map, Indexed-nil}
use sap.State.Store.Delete.{
  delete_children-drop_ids, clear_open_roots-drop_ids, drop_ids, pruned_all, dropped_all,
  pruned-dropped-Split,
}
use sap.State.Store.Stale.{Source, mark_children-Source}
use sap.State.Store.{
  Store, new_store_with_options, clear, mark_open_spans_stale, clear_open_roots, clear_open_spans,
  limit_roots,
}
use sap.State.Apply.{
  track, add_root, add_under, attach, new_span, apply_started, apply_updated, apply_ended,
  apply_event, update_open, apply,
}

-- `byID` holds exactly the spans of the tree, each under its own non-empty ID, and only a tracked
-- span carries a stale mark.
pub record Inv (s : Store) : Type 0 where
  pub indexed : Indexed (fields_all s.roots) s.by_id s.next_addr
  pub marked : (id : String) → s.stale_open_at id ≢ none → s.by_id id ≢ none

pub new_store-Inv : (allow : Bool) → Inv (new_store_with_options allow)
unfolding new_store_with_options fields
new_store-Inv allow = record { indexed = Indexed-nil 0; marked = λ id h. absurd (h refl) }

pub clear-Inv : {s : Store} → Inv s → Inv (clear s)
unfolding clear fields
clear-Inv {s} v = record { indexed = Indexed-nil s.next_addr; marked = λ id h. absurd (h refl) }

-- Spans leave with their entries.
pub drop_ids-Inv :
    {s : Store} (ts : Spans) {out : List SpanFields}
    → Inv s
    → Split (fields_all s.roots) (fields_all ts) out
    → Inv (record (drop_ids (ids out) s) { roots = ts })
drop_ids-Inv {s} ts {out} v sp = record {
  indexed = Indexed-remove v.indexed sp;
  marked = λ id h. elim (In_dec str_dec id (ids out)) [
    | yes i ↦ absurd (h (delete_all-hit (ids out) id s.stale_open_at i))
    | no n ↦ λ e.
        v.marked id (λ q. h (delete_all-miss (ids out) id s.stale_open_at n ∙ q))
          (sym (delete_all-miss (ids out) id s.by_id n) ∙ e)
  ];
}

-- A new object enters under an ID that was not tracked.
enter-Inv :
    {s : Store} (f : SpanFields) (ts : Spans)
    → Inv s
    → Split (fields_all ts) (f ∷ []) (fields_all s.roots)
    → f.addr ≡ s.next_addr
    → s.by_id f.span_id ≡ none
    → f.span_id ≢ ""
    → Inv (record (track f s) { roots = ts })
unfolding track
enter-Inv {s} f ts v sp at new_id name = record {
  indexed = Indexed-insert v.indexed f sp at new_id name;
  marked = λ id h. elim (str_dec id f.span_id) [
    | yes e ↦
        λ q. absurd (cc (sym (if_pos (str_dec id f.span_id) e (some f.addr) (s.by_id id)) ∙ q))
    | no n ↦ λ q. v.marked id h (sym (if_neg (str_dec id f.span_id) n _ _) ∙ q)
  ];
}

add_root-Inv :
    {s : Store} (f : SpanFields)
    → Inv s
    → f.addr ≡ s.next_addr
    → s.by_id f.span_id ≡ none
    → f.span_id ≢ ""
    → Inv (add_root f s)
unfolding add_root
add_root-Inv {s} f v = enter-Inv f _ v (fields-snoc s.roots f)

add_under-Inv :
    {s : Store} (parent : String) (a : ℕ) (f : SpanFields)
    → Inv s
    → s.by_id parent ≡ some a
    → f.addr ≡ s.next_addr
    → s.by_id f.span_id ≡ none
    → f.span_id ≢ ""
    → Inv (add_under a f s)
unfolding add_under
add_under-Inv {s} parent a f v e =
    let (g, i, _, at) = v.indexed.sound parent a e in
    enter-Inv f _ v
      (fields-add_child a f s.roots (In-eq at (In-map (λ h. h.addr) g i)) v.indexed.distinct)

attach-Inv :
    {s : Store} (o : Option ℕ) (f : SpanFields)
    → Inv s
    → s.by_id f.parent_span_id ≡ o
    → f.addr ≡ s.next_addr
    → s.by_id f.span_id ≡ none
    → f.span_id ≢ ""
    → Inv (attach o f s)
unfolding attach
attach-Inv (some a) f v e at new_id name = add_under-Inv f.parent_span_id a f v e at new_id name
attach-Inv {s} none f v e at new_id name =
    ite_ind Inv (str_dec f.parent_span_id "") (λ _. add_root-Inv f v at new_id name)
      (λ _. if_ind Inv s.allow_unknown_parents (λ _. add_root-Inv f v at new_id name) (λ _. v))

written-addr :
    (a : ℕ) (g : SpanFields → SpanFields)
    → ((f : SpanFields) → (g f).addr ≡ f.addr)
    → (f : SpanFields) → (written a g f).addr ≡ f.addr
written-addr a g e f =
    ite_ind (λ (h : SpanFields). h.addr ≡ f.addr) (ℕ_discrete f.addr a) (λ _. e f) (λ _. refl)

written-span_id :
    (a : ℕ) (g : SpanFields → SpanFields)
    → ((f : SpanFields) → (g f).span_id ≡ f.span_id)
    → (f : SpanFields) → (written a g f).span_id ≡ f.span_id
written-span_id a g e f =
    ite_ind (λ (h : SpanFields). h.span_id ≡ f.span_id) (ℕ_discrete f.addr a) (λ _. e f) (λ _. refl)

-- The write of an open span's fields, which keeps its ID and its address.
update_open-Inv :
    {s : Store} (id : String) (g : SpanFields → SpanFields)
    → ((f : SpanFields) → (g f).addr ≡ f.addr)
    → ((f : SpanFields) → (g f).span_id ≡ f.span_id)
    → Inv s
    → Inv (update_open id g s)
unfolding update_open
update_open-Inv {s} id g same_addr same_id v =
    Option-ind Inv (s.by_id id) (λ _. v)
      λ a _.
        Option-ind Inv (read_in a s.roots) (λ _. v)
          λ f _. if_ind Inv f.ended (λ _. v) (λ _. write-Inv a)
  where
    write-Inv : (a : ℕ) → Inv (record s { roots = write_in a g s.roots })
    write-Inv a = record {
      indexed = rw (fields-write_all a g s.roots) (
          Indexed-map v.indexed (written a g) (written-addr a g same_addr)
            (written-span_id a g same_id));
      marked = v.marked;
    }

module _ (p : Proto) where
  apply_started-Inv :
      {s : Store} (m : Option (SpanStarted p.Timestamp)) → Inv s → Inv (apply_started p m s)
  unfolding apply_started
  apply_started-Inv none v = v
  apply_started-Inv {s} (some m) v =
      ite_ind Inv (str_dec f.span_id "") (λ _. v)
        λ name.
          Option-ind Inv (s.by_id f.span_id)
            (λ new_id. attach-Inv (s.by_id f.parent_span_id) f v refl at new_id name) (λ a _. v)
    where
      f : SpanFields
      f = new_span p s.next_addr m

      at : f.addr ≡ s.next_addr
      at = refl

  apply_updated-Inv :
      {s : Store} (m : Option (SpanUpdated p.Timestamp)) → Inv s → Inv (apply_updated p m s)
  unfolding apply_updated
  apply_updated-Inv none v = v
  apply_updated-Inv (some m) v = update_open-Inv _ _ (λ f. refl) (λ f. refl) v

  apply_ended-Inv :
      {s : Store} (m : Option (SpanEnded p.Timestamp)) → Inv s → Inv (apply_ended p m s)
  unfolding apply_ended
  apply_ended-Inv none v = v
  apply_ended-Inv (some m) v = update_open-Inv _ _ (λ f. refl) (λ f. refl) v

  apply_event-Inv :
      {s : Store} (m : Option (SpanEvent p.Timestamp)) → Inv s → Inv (apply_event p m s)
  unfolding apply_event
  apply_event-Inv none v = v
  apply_event-Inv (some m) v = update_open-Inv _ _ (λ f. refl) (λ f. refl) v

  apply_kind-Inv :
      {s : Store} (at : Option p.Timestamp) (k : Kind p.Timestamp)
      → Inv s
      → Inv (apply p (some (record { emitted_at = at; kind = k })) s)
  unfolding apply which_kind get_span_started get_span_updated get_span_ended get_span_event
  apply_kind-Inv at not_set v = v
  apply_kind-Inv at (span_started m) v = apply_started-Inv (some m) v
  apply_kind-Inv at (span_updated m) v = apply_updated-Inv (some m) v
  apply_kind-Inv at (span_ended m) v = apply_ended-Inv (some m) v
  apply_kind-Inv at (span_event m) v = apply_event-Inv (some m) v

  -- Whatever record arrives, nil or of no known kind included, the store stays well formed.
  pub apply-Inv : {s : Store} (r : Option (Record p.Timestamp)) → Inv s → Inv (apply p r s)
  unfolding apply
  apply-Inv none v = v
  apply-Inv (some r) v = apply_kind-Inv r.emitted_at r.kind v

Source-tracked :
    {s : Store} (at : Time) (id : String) (t : Time)
    → Inv s
    → Source (fields_all s.roots) at s.stale_open_at id t
    → s.by_id id ≢ none
Source-tracked at id t v (inl e) = v.marked id (λ q. absurd (cc (sym q ∙ e)))
Source-tracked {s} at id t v (inr (_, _, (f, i, _, e))) =
    λ q. absurd (cc (sym (v.indexed.complete f i) ∙ ap s.by_id e ∙ q))

pub mark_open_spans_stale-Inv : {s : Store} (at : Time) → Inv s → Inv (mark_open_spans_stale s at)
unfolding mark_open_spans_stale
mark_open_spans_stale-Inv {s} at v = record {
  indexed = v.indexed;
  marked = λ id h. elim (Option-cases (mark_children s.roots at s.stale_open_at id)) [
    | inl e ↦ absurd (h e)
    | inr (t, e) ↦ Source-tracked at id t v (mark_children-Source s.roots at s.stale_open_at id t e)
  ];
}

pub limit_roots-Inv : {s : Store} (limit : ℤ) → Inv s → Inv (limit_roots limit s)
unfolding limit_roots
limit_roots-Inv {s} limit v =
    if_ind Inv (leb_ℤ limit (pos 0)) (λ _. clear-Inv v)
      (λ _.
        if_ind Inv (leb (count s.roots) (pos_part limit)) (λ _. v)
          (λ _.
            rw (delete_children-drop_ids (take_spans (count s.roots - pos_part limit) s.roots) s)
              (drop_ids-Inv _ v (fields-cut (count s.roots - pos_part limit) s.roots))))

clear_open_roots-Inv : {s : Store} (ts : Spans) → s.roots ≡ ts → Inv s → Inv (clear_open_roots ts s)
unfolding clear_open_roots
clear_open_roots-Inv nil e v = v
clear_open_roots-Inv {s} (cons t ts) e v = subst Inv (sym (clear_open_roots-drop_ids t ts s)) (
    drop_ids-Inv (pruned_all (cons t ts)) v (
      subst
        (λ us.
          Split (fields_all us) (fields_all (pruned_all (cons t ts))) (dropped_all (cons t ts)))
        (sym e) (pruned-dropped-Split (cons t ts))))

pub clear_open_spans-Inv : {s : Store} → Inv s → Inv (clear_open_spans s)
unfolding clear_open_spans
clear_open_spans-Inv {s} v = clear_open_roots-Inv s.roots refl v
