-- ===== src/Web/Server.antt =====
-- viewer/sap-web/server.go: the state of the viewer, the patches and the broadcast of snapshots. The
-- components that templ generates are an interface. A method returns none where the program panics.
use Prim.Native.Char.{Char, code}
use Prim.Native.String as Text
use Prim.Native.String.{String, ◌++◌}
use sap.Base.{ℕ, suc, ◌+◌, Option, none, some, List, [], ◌∷◌, Bool, true, false, ite, str_dec}
use sap.Base.Lists.{length}
use sap.Base.Int.{ℤ, pos, leb, leb_ℤ, ◌==◌, if◌then◌else◌}
use sap.Base.Maps.{Map}
use sap.Hub.{Chan}
use sap.Message.{
  Record, KindCase, not_set_case, span_started_case, span_updated_case, span_ended_case,
  span_event_case, which_kind, get_span_started, get_span_updated, get_span_ended, get_span_event,
}
use sap.Message.Started
use sap.Message.Updated
use sap.Message.Ended
use sap.Message.Events
use sap.Message.Proto.{Time, zero_time}
use sap.State.Tree.{EventState, SpanFields, SpanState, null, span, Spans, nil, cons, count}
use sap.State.Store.{Store, new_store_with_options, find}
use sap.State.Timeline.{TimelineItem, timeline_items}
use sap.Sse.{no_state, ConnectionState}

-- What the `Render` of a component writes, or the text of its error.
pub data Rendered : Type 0 where
  html failed : String → Rendered

pub record Snapshot : Type 0 where
  pub roots_html : String
  pub patch_html : String
  pub status_html : String

-- The components of components.templ.
pub record Templates : Type 0 where
  pub page : Snapshot → Rendered
  pub roots : Spans → Time → Map Time → Rendered
  pub span_patch : SpanState → ℕ → Time → Map Time → Rendered
  pub span_summary_patch : SpanState → Time → Map Time → Rendered
  pub span_attributes_patch : SpanState → Rendered
  pub span_timeline_patch : SpanState → ℕ → Time → Map Time → Rendered
  pub timeline_append_patch : SpanState → TimelineItem → ℕ → Time → Map Time → Rendered
  pub status : ℕ → ConnectionState → Bool → Rendered

-- `html.EscapeString`
unfoldable pub escape_char : Char → String
escape_char c =
    let n = code c in
    if n == b'&'
    then "&amp;"
    else (if n == b'<'
        then "&lt;"
        else (if n == b'>'
            then "&gt;"
            else (if n == 39 then "&#39;" else (if n == 34 then "&#34;" else Text.◌∷◌ c Text.[]))))

unfoldable pub escape_string : String → String
unfolding escape_char
escape_string Text.[] = Text.[]
escape_string (Text.◌∷◌ c s) = escape_char c ++ escape_string s

unfoldable pub render_to_string : Rendered → String
unfolding escape_string
render_to_string (html text) = text
render_to_string (failed err) =
    "<section class=\"empty\"><div><strong>render error</strong><br><span>"
    ++ (escape_string err ++ "</span></div></section>")

-- The channels are those of subscribers, by address, with the next address.
pub record Server : Type 0 where
  pub store : Store
  pub conn : ConnectionState
  pub paused : Bool
  pub max_roots : ℤ
  pub chans : ℕ → Option (Chan Snapshot)
  pub next : ℕ
  pub subscribers : List ℕ

unfoldable pub new_server : ℤ → Bool → Server
unfolding new_store_with_options
new_server max_roots allow = record {
  store = new_store_with_options allow;
  conn = record { state = no_state; attempt = 0; err = ""; retry_at = zero_time };
  paused = false;
  max_roots = if leb_ℤ max_roots (pos 0) then pos 50 else max_roots;
  chans = λ _. none;
  next = 0;
  subscribers = [];
}

unfoldable pub root_ids : Spans → List String
root_ids nil = []
root_ids (cons null ts) = "" ∷ root_ids ts
root_ids (cons (span f us) ts) = f.span_id ∷ root_ids ts

-- The loop of `sameStrings`; slices of different lengths are told apart before it.
unfoldable pub same_strings : List String → List String → Bool
same_strings [] [] = true
same_strings [] (r ∷ right) = false
same_strings (l ∷ left) [] = false
same_strings (l ∷ left) (r ∷ right) = ite (str_dec l r) (same_strings left right) false

unfoldable pub child_in : Spans → String → ℕ → SpanState × ℕ
child_in nil id i = (null, 0)
child_in (cons null ts) id i = child_in ts id (suc i)
child_in (cons (span f us) ts) id i =
    ite (str_dec f.span_id id) (span f us, i) (child_in ts id (suc i))

unfoldable pub child_span_by_id : SpanState → String → SpanState × ℕ
unfolding child_in
child_span_by_id null id = (null, 0)
child_span_by_id (span f ts) id = child_in ts id 0

module _ {T : Type 0} where
  unfoldable pub id_for : KindCase → Option (Record T) → String
  id_for span_started_case r = Started.get_span_id (get_span_started r)
  id_for span_updated_case r = Updated.get_span_id (get_span_updated r)
  id_for span_ended_case r = Ended.get_span_id (get_span_ended r)
  id_for span_event_case r = Events.get_span_id (get_span_event r)
  id_for not_set_case r = ""

  unfoldable pub record_span_id : Option (Record T) → String
  unfolding id_for
  record_span_id none = ""
  record_span_id (some r) = id_for (which_kind (some r)) (some r)

-- The last event of a slice that is not empty, with its index. (No handler stores a nil event.)
unfoldable pub last_event : List (Option EventState) → ℕ → Option (ℕ × EventState)
last_event [] i = none
last_event (none ∷ []) i = none
last_event (some e ∷ []) i = some (i, e)
last_event (e ∷ e' ∷ es) i = last_event (e' ∷ es) (suc i)

module _ (t : Templates) where
  unfoldable pub append_child : SpanFields → Spans → SpanState × ℕ → ℕ → Time → Map Time → Rendered
  append_child f ts (null, i) depth now stale = t.span_timeline_patch (span f ts) depth now stale
  append_child f ts (span g us, i) depth now stale =
      t.timeline_append_patch (span f ts)
        (record { at = g.started_at; event = none; child = span g us; index = length f.events + i })
        depth now stale

  -- The patch for a start under the span that was found for its parent ID, with its depth.
  unfoldable pub patch_under : SpanState × ℕ → String → Time → Map Time → Option Rendered
  unfolding append_child
  patch_under (null, depth) id now stale = none
  patch_under (span f ts, depth) id now stale = some (
      if leb (length (timeline_items (span f ts))) 1
      then t.span_timeline_patch (span f ts) depth now stale
      else append_child f ts (child_span_by_id (span f ts) id) depth now stale)

  unfoldable pub append_event :
      SpanFields → Spans → Option (ℕ × EventState) → ℕ → Time → Map Time → Rendered
  append_event f ts none depth now stale = t.span_timeline_patch (span f ts) depth now stale
  append_event f ts (some (i, e)) depth now stale =
      t.timeline_append_patch (span f ts)
        (record { at = e.at; event = some e; child = null; index = i }) depth now stale

  unfoldable pub patch_event : SpanState × ℕ → Time → Map Time → Option Rendered
  unfolding append_event
  patch_event (null, depth) now stale = none
  patch_event (span f ts, depth) now stale = some (
      if leb (length (timeline_items (span f ts))) 1
      then t.span_timeline_patch (span f ts) depth now stale
      else append_event f ts (last_event f.events 0) depth now stale)

  unfoldable pub on_found : SpanState × ℕ → (SpanState → ℕ → Rendered) → Option Rendered
  on_found (null, depth) draw = none
  on_found (span f ts, depth) draw = some (draw (span f ts) depth)

  module _ {T : Type 0} where
    unfoldable pub patch_kind :
        KindCase → Option (Record T) → String → Time → Store → Option Rendered
    patch_kind span_started_case r id now s =
        let parent = Started.get_parent_span_id (get_span_started r) in
        ite (str_dec parent "") none (patch_under (find s parent) id now s.stale_open_at)
    patch_kind span_updated_case r id now s =
        on_found (find s id) (λ found depth. t.span_attributes_patch found)
    patch_kind span_event_case r id now s = patch_event (find s id) now s.stale_open_at
    patch_kind span_ended_case r id now s =
        on_found (find s id) (λ found depth. t.span_summary_patch found now s.stale_open_at)
    patch_kind not_set_case r id now s =
        on_found (find s id) (λ found depth. t.span_patch found depth now s.stale_open_at)

    -- What `recordPatchSnapshotLocked` draws, and none where it returns false.
    unfoldable pub record_patch : Option (Record T) → String → Time → Store → Option Rendered
    unfolding patch_kind
    record_patch none id now s = none
    record_patch (some r) id now s = patch_kind (which_kind (some r)) (some r) id now s

  unfoldable pub status_of : Server → String
  unfolding render_to_string
  status_of s = render_to_string (t.status (count s.store.roots) s.conn s.paused)

  unfoldable pub snapshot_locked : Time → Server → Snapshot
  unfolding render_to_string status_of
  snapshot_locked now s = record {
    roots_html = render_to_string (t.roots s.store.roots now s.store.stale_open_at);
    patch_html = "";
    status_html = status_of s;
  }

  unfoldable pub patch_snapshot_locked : Rendered → Server → Snapshot
  unfolding render_to_string status_of
  patch_snapshot_locked drawn s = record {
    roots_html = "";
    patch_html = render_to_string drawn;
    status_html = status_of s;
  }

  unfoldable pub status_snapshot_locked : Server → Snapshot
  unfolding status_of
  status_snapshot_locked s = record { roots_html = ""; patch_html = ""; status_html = status_of s }
