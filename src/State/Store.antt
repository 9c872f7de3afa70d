-- ===== src/State/Store.antt =====
-- Store of state/state.go: its fields and its operations. `next_addr` is the address that the next
-- `&SpanState{}` gets.
pub mod Delete
pub mod Stale
use sap.Base.{
  ℕ, suc, ◌-◌, String, Option, none, some, List, [], ◌∷◌, ◌++◌, Bool, true, false, ite, str_dec,
}
use sap.Base.Int.{ℤ, pos, pos_part, leb, leb_ℤ, if◌then◌else◌}
use sap.Base.Maps.{Map, empty, insert, delete}
use sap.Message.Proto.{Time}
use sap.State.Tree.{
  EventState, SpanFields, SpanState, null, span, Spans, nil, cons, count, append, take_spans,
  drop_spans, find_children, has_open_child, mark_children, read_in, write_in, add_child_in,
}

pub record Store : Type 0 where
  pub roots : Spans
  pub by_id : Map ℕ
  pub stale_open_at : Map Time
  pub allow_unknown_parents : Bool
  pub next_addr : ℕ

-- `StoreOptions` has the one field `AllowUnknownParents`.
unfoldable pub new_store_with_options : Bool → Store
new_store_with_options allow = record {
  roots = nil;
  by_id = empty;
  stale_open_at = empty;
  allow_unknown_parents = allow;
  next_addr = 0;
}

unfoldable pub new_store : Store
unfolding new_store_with_options
new_store = new_store_with_options false

unfoldable pub clear : Store → Store
clear s = record s { roots = nil; by_id = empty; stale_open_at = empty }

unfoldable pub find : Store → String → SpanState × ℕ
find s id = ite (str_dec id "") (null, 0) (find_children s.roots id 0)

unfoldable pub has_open_spans : Store → Bool
has_open_spans s = has_open_child s.roots

unfoldable pub mark_open_spans_stale : Store → Time → Store
mark_open_spans_stale s at = record s { stale_open_at = mark_children s.roots at s.stale_open_at }

-- The two `delete`s of `deleteSpan`.
unfoldable pub untrack : String → Store → Store
untrack id s = record s { by_id = delete id s.by_id; stale_open_at = delete id s.stale_open_at }

unfoldable mutual
  unfolding untrack

  pub delete_span : SpanState → Store → Store
  delete_span null s = s
  delete_span (span f ts) s = delete_children ts (untrack f.span_id s)

  pub delete_children : Spans → Store → Store
  delete_children nil s = s
  delete_children (cons t ts) s = delete_children ts (delete_span t s)

unfoldable pub keep_if : SpanState → Bool → Spans → Spans
keep_if t true ts = cons t ts
keep_if t false ts = ts

-- `keepClosedSpan` returns the store, the span with the children that it keeps, and its result.
unfoldable mutual
  unfolding delete_span keep_if

  pub keep_closed_span : SpanState → Store → Store × SpanState × Bool
  keep_closed_span null s = (s, null, false)
  keep_closed_span (span f ts) s =
      if f.ended
      then (let (s', kept) = keep_closed_children ts s in (s', span f kept, true))
      else (delete_span (span f ts) s, span f ts, false)

  pub keep_closed_children : Spans → Store → Store × Spans
  keep_closed_children nil s = (s, nil)
  keep_closed_children (cons t ts) s =
      let (s', t', kept) = keep_closed_span t s in
      let (s'', ts') = keep_closed_children ts s' in (s'', keep_if t' kept ts')

set_roots : Store × Spans → Store
set_roots (s, ts) = record s { roots = ts }

-- With no roots the source returns early.
unfoldable pub clear_open_roots : Spans → Store → Store
unfolding set_roots keep_closed_children
clear_open_roots nil s = s
clear_open_roots (cons t ts) s = set_roots (keep_closed_children (cons t ts) s)

unfoldable pub clear_open_spans : Store → Store
unfolding clear_open_roots
clear_open_spans s = clear_open_roots s.roots s

unfoldable pub limit_to : ℕ → Store → Store
unfolding delete_children
limit_to limit s =
    if leb (count s.roots) limit
    then s
    else (let remove : ℕ = count s.roots - limit in
        record (delete_children (take_spans remove s.roots) s) {
          roots = drop_spans remove s.roots;
        })

unfoldable pub limit_roots : ℤ → Store → Store
unfolding limit_to clear
limit_roots limit s = if leb_ℤ limit (pos 0) then clear s else limit_to (pos_part limit) s
