-- ===== src/State/Store/Delete.antt =====
-- `deleteSpan` and `keepClosedSpan` seen without the store that they thread.
use sap.Base.{◌≡◌, refl, sym, ap, ◌∙◌, String, List, [], ◌∷◌, ◌++◌, Bool, true, false, arith}
use mathlib.Core.List.{append-nil, map-append}
use sap.Base.Int.{if◌then◌else◌}
use sap.Base.Maps.{delete_all, delete_all-append}
use sap.Base.Lists.{Split, done, left, Split-all_right, Split-append}
use sap.State.Tree.{SpanFields, SpanState, null, span, Spans, nil, cons, fields, fields_all}
use sap.State.Index.{ids}
use sap.State.Store.{
  Store, untrack, delete_span, delete_children, keep_if, keep_closed_span, keep_closed_children,
  set_roots, clear_open_roots,
}

-- Some IDs are forgotten.
abbrev pub drop_ids : List String → Store → Store
drop_ids ks s = record s {
  by_id = delete_all ks s.by_id;
  stale_open_at = delete_all ks s.stale_open_at;
}

pub drop_ids-append :
    (ks js : List String) (s : Store) → drop_ids js (drop_ids ks s) ≡ drop_ids (ks ++ js) s
drop_ids-append ks js s =
    rw (delete_all-append ks js s.by_id, delete_all-append ks js s.stale_open_at) refl

mutual
  unfolding fields delete_span

  delete_span-drop_ids : (t : SpanState) (s : Store) → delete_span t s ≡ drop_ids (ids (fields t)) s
  delete_span-drop_ids null s = refl
  delete_span-drop_ids (span f ts) s = delete_children-drop ts (untrack f.span_id s)

  delete_children-drop :
      (ts : Spans) (s : Store) → delete_children ts s ≡ drop_ids (ids (fields_all ts)) s
  delete_children-drop nil s = refl
  delete_children-drop (cons t ts) s =
      ap (delete_children ts) (delete_span-drop_ids t s)
      ∙ delete_children-drop ts (drop_ids (ids (fields t)) s)
      ∙ drop_ids-append (ids (fields t)) (ids (fields_all ts)) s
      ∙ ap (λ ks. drop_ids ks s) (sym (map-append (λ f. f.span_id) (fields t) (fields_all ts)))

-- A slice of spans is deleted with all descendants.
pub delete_children-drop_ids :
    (ts : Spans) (s : Store) → delete_children ts s ≡ drop_ids (ids (fields_all ts)) s
delete_children-drop_ids ts s = delete_children-drop ts s

abbrev pub is_closed : SpanState → Bool
is_closed null = false
is_closed (span f ts) = f.ended

-- What stays of a span and of a slice, and the objects that leave.
unfoldable mutual
  unfolding keep_if

  pub pruned : SpanState → SpanState
  pruned null = null
  pruned (span f ts) = if f.ended then span f (pruned_all ts) else span f ts

  pub pruned_all : Spans → Spans
  pruned_all nil = nil
  pruned_all (cons t ts) = keep_if (pruned t) (is_closed t) (pruned_all ts)

unfoldable mutual
  unfolding fields

  pub dropped : SpanState → List SpanFields
  dropped null = []
  dropped (span f ts) = if f.ended then dropped_all ts else f ∷ fields_all ts

  pub dropped_all : Spans → List SpanFields
  dropped_all nil = []
  dropped_all (cons t ts) = dropped t ++ dropped_all ts

abbrev kept_span : SpanState → Store → Store × SpanState × Bool
kept_span t s = (drop_ids (ids (dropped t)) s, pruned t, is_closed t)

abbrev kept_children : Spans → Store → Store × Spans
kept_children ts s = (drop_ids (ids (dropped_all ts)) s, pruned_all ts)

kept_cons :
    (t : SpanState) (ts : Spans) (s : Store)
    → keep_closed_span t s ≡ kept_span t s
    → keep_closed_children ts (drop_ids (ids (dropped t)) s)
      ≡ kept_children ts (drop_ids (ids (dropped t)) s)
    → keep_closed_children (cons t ts) s ≡ kept_children (cons t ts) s
unfolding keep_closed_span pruned dropped
kept_cons t ts s e es =
    ap after_first e
    ∙ ap (λ (r : Store × Spans). (r.0, keep_if (pruned t) (is_closed t) r.1)) es
    ∙ ap (λ s'. (s', pruned_all (cons t ts)))
        (drop_ids-append (ids (dropped t)) (ids (dropped_all ts)) s
          ∙ ap (λ ks. drop_ids ks s)
              (sym (map-append (λ f. f.span_id) (dropped t) (dropped_all ts))))
  where
    after_first : Store × SpanState × Bool → Store × Spans
    after_first (s', t', kept) =
        let (s'', ts') = keep_closed_children ts s' in (s'', keep_if t' kept ts')

mutual
  unfolding keep_closed_span pruned dropped

  keep_closed_span-kept : (t : SpanState) (s : Store) → keep_closed_span t s ≡ kept_span t s
  keep_closed_span-kept null s = refl
  keep_closed_span-kept (span f ts) s =
      ground (arith, keep_closed_children-kept ts s, delete_span-drop_ids (span f ts) s)

  keep_closed_children-kept :
      (ts : Spans) (s : Store) → keep_closed_children ts s ≡ kept_children ts s
  keep_closed_children-kept nil s = refl
  keep_closed_children-kept (cons t ts) s =
      kept_cons t ts s (keep_closed_span-kept t s)
        (keep_closed_children-kept ts (drop_ids (ids (dropped t)) s))

by_ended :
    (f : SpanFields) (ts : Spans) (b : Bool)
    → Split (fields_all ts) (fields_all (pruned_all ts)) (dropped_all ts)
    → Split
        (f ∷ fields_all ts)
        (fields_all (keep_if (if b then span f (pruned_all ts) else span f ts) b nil))
        (if b then dropped_all ts else f ∷ fields_all ts)
unfolding fields keep_if
by_ended f ts true h = rw append-nil (left f h)
by_ended f ts false h = Split-all_right (f ∷ fields_all ts)

keep_if-fields :
    (t : SpanState) (b : Bool) (ts : Spans)
    → fields_all (keep_if t b ts) ≡ fields_all (keep_if t b nil) ++ fields_all ts
unfolding fields keep_if
keep_if-fields t true ts = rw append-nil refl
keep_if-fields t false ts = refl

mutual
  unfolding fields pruned dropped

  pruned-Split :
      (t : SpanState)
      → Split (fields t) (fields_all (keep_if (pruned t) (is_closed t) nil)) (dropped t)
  pruned-Split null = done
  pruned-Split (span f ts) = by_ended f ts f.ended (pruned_all-Split ts)

  pruned_all-Split :
      (ts : Spans) → Split (fields_all ts) (fields_all (pruned_all ts)) (dropped_all ts)
  pruned_all-Split nil = done
  pruned_all-Split (cons t ts) =
      rw (keep_if-fields (pruned t) (is_closed t) (pruned_all ts))
        (Split-append (pruned-Split t) (pruned_all-Split ts))

-- Every object is kept or dropped.
pub pruned-dropped-Split :
    (ts : Spans) → Split (fields_all ts) (fields_all (pruned_all ts)) (dropped_all ts)
pruned-dropped-Split ts = pruned_all-Split ts

-- `ClearOpenSpans` keeps the pruned roots and forgets the IDs of the objects that leave.
pub clear_open_roots-drop_ids :
    (t : SpanState) (ts : Spans) (s : Store)
    → clear_open_roots (cons t ts) s
      ≡ record (drop_ids (ids (dropped_all (cons t ts))) s) { roots = pruned_all (cons t ts) }
unfolding clear_open_roots
clear_open_roots-drop_ids t ts s = ap set_roots (keep_closed_children-kept (cons t ts) s)
