-- ===== src/Web/Tests.antt =====
-- The web viewer of viewer/sap-web on concrete spans, records and clients.
use sap.Base.{
  ℕ, ◌≡◌, ◌≤◌, ◌+◌, refl, sym, ap, ◌∙◌, String, Option, none, some, List, [], ◌∷◌, ◌++◌, Bool, true,
  false, ite, str_dec, ℕ_discrete, arith, map,
}
use sap.Base.Int.{pos, negsuc, if◌then◌else◌}
use sap.Base.Http.{Reply, text_of}
use sap.Base.Text.{ne_of_test}
use sap.Base.Lists.{here}
use sap.Base.Lines.{has_code, split_lines}
use sap.Base.Lines.Join.{chomp}
use sap.Base.Maps.{empty}
use sap.Hub.{Chan, Received, item, wait}
use sap.Message.Proto.{plain}
use sap.State.Tree.{EventState, SpanFields, SpanState, null, span, nil, cons, count}
use sap.State.Samples.{start, happen, finish, evaluation}
use Prim.Native.String as Text
use sap.Message.Ended.{TerminalType}
use sap.Message.Events.{Severity}
use sap.Web.Drain.{receive_n, receive_n-current}
use sap.Web.Patches.{OnTimeline, patches-OnTimeline}
use sap.Web.Keys.{
  is_ident_char, ident_char, ident_chars, safe_css_ident, span_card_key, span_dom_id,
  span_summary_dom_id, span_attributes_dom_id, span_timeline_dom_id, timeline_list_dom_id,
  attr_dom_id, event_dom_id,
}
use sap.Web.Idents.{all_ident, AllPlain, dom_ids-AllPlain, span_dom_id-injective}
use sap.State.Timeline.{TimelineItem}
use sap.Sse.{retrying}
use sap.Web.Server.{
  Rendered, html, failed, Templates, Snapshot, Server, new_server, status_of, snapshot_locked,
  patch_snapshot_locked, status_snapshot_locked, root_ids, same_strings, record_patch, patch_kind,
  patch_under, patch_event, append_child, append_event, child_span_by_id, child_in, last_event,
  record_span_id, id_for, on_found, escape_string, render_to_string,
}
use sap.Web.Session.{
  subscribe, unsubscribe, receive, receive_from, apply_record, take_record, change_snapshot,
  patch_or_all, set_connection_state, announce_state, toggle_paused, flip_paused, clear_all,
  broadcast_locked, offer_to, offer,
}
use sap.Web.Invariant.{Inv}
use sap.Web.Limit.{root_limit}
use sap.State.Store.{clear}
use sap.Web.History.{
  Call, subscribes, receives, applies, connects, toggles, clears, run, step, run-new_server,
}
use sap.Web.Written.{write_sse-events_of}
use sap.Web.Stream.{write_sse}
use sap.Web.EventSource.{events_of}
use sap.Base.Decimal.{decimal, duration_string}
use sap.Web.View.{format_duration}

-- Components that write the number of roots or the ID of a span.
id_of : SpanState → String
id_of null = ""
id_of (span f ts) = f.span_id

content_of : Option EventState → SpanState → String
content_of none s = id_of s
content_of (some e) s = Text.◌++◌ "event " e.name

abbrev components : Templates
components = record {
  page = λ snap. html "page";
  roots = λ ts now stale. html (sap.Base.Decimal.decimal (count ts));
  span_patch = λ s depth now stale. html (id_of s);
  span_summary_patch = λ s now stale. html (id_of s);
  span_attributes_patch = λ s. html (id_of s);
  span_timeline_patch = λ s depth now stale. html (id_of s);
  timeline_append_patch = λ s item depth now stale. html (content_of item.event item.child);
  status = λ n conn paused. html (if paused then "paused" else decimal n);
}

escapes : escape_string "a<b>&'\"" ≡ "a&lt;b&gt;&amp;&#39;&#34;"
unfolding escape_string sap.Web.Server.escape_char
escapes = refl

formats_durations :
    (format_duration (pos 0) ≡ "0s")
    × (format_duration (negsuc 5) ≡ "0s")
    × (format_duration (pos 1234567) ≡ "0s")
    × (format_duration (pos 15000000) ≡ "20ms")
    × (format_duration (pos 1560000000) ≡ "1.6s")
    × (format_duration (pos 5430400000000) ≡ "1h30m30s")
unfolding format_duration sap.Base.Time.round duration_string sap.Base.Decimal.duration_of
    sap.Base.Decimal.long_duration sap.Base.Decimal.short_duration sap.Base.Decimal.with_fraction
    sap.Base.Decimal.fraction_digits decimal sap.Base.Decimal.decimal_from sap.Base.Decimal.digit
formats_durations = (refl, refl, refl, refl, refl, refl)

abbrev reply : Reply
reply = record { flusher = true; headers = []; status = none; wire = []; room = 10 }

write_sse-events_of_example :
    (w' : Reply) × (write_sse "patch" "<p>\na</p>\n" reply ≡ (w', true))
    × (events_of (text_of w'.wire) ≡ ("patch", chomp "<p>\na</p>\n") ∷ [])
unfolding has_code split_lines sap.Base.Lines.push
write_sse-events_of_example =
    write_sse-events_of "patch" "<p>\na</p>\n" reply refl refl (omega arith) (omega arith) refl

-- A root with an event, a child and a second root that takes its place, with a client that comes and
-- reads, and a connection that is lost.
abbrev calls : List (Call plain)
calls =
    subscribes (pos 1)
    ∷ applies (some (start "root" none 10)) (pos 10)
    ∷ applies (some (happen "root" "warn" (some 11))) (pos 11)
    ∷ applies (some (start "child" (some "root") 12)) (pos 12)
    ∷ applies none (pos 13)
    ∷ receives 0
    ∷ toggles (pos 14)
    ∷ applies (some (start "second" none 15)) (pos 15)
    ∷ toggles (pos 16)
    ∷ applies (some (start "second" none 17)) (pos 17)
    ∷ connects (record { state = retrying; attempt = 2; err = "gone"; retry_at = pos 30 }) (pos 18)
    ∷ clears (pos 19)
    ∷ []

evaluates : Unit {0}
unfolding evaluation run step new_server subscribe unsubscribe receive receive_from apply_record
    take_record change_snapshot patch_or_all set_connection_state announce_state toggle_paused
    flip_paused clear_all broadcast_locked offer_to offer sap.Hub.for_each sap.Hub.deliver
    snapshot_locked patch_snapshot_locked status_snapshot_locked status_of render_to_string root_ids
    same_strings record_patch patch_kind patch_under patch_event append_child append_event
    child_span_by_id child_in last_event record_span_id id_for on_found
    sap.State.Timeline.timeline_items sap.State.Timeline.entries sap.State.Timeline.sort_stable
    sap.State.Timeline.put_item sap.State.Timeline.is_less sap.State.Timeline.compare_items
    sap.State.Timeline.add_events sap.State.Timeline.add_children decimal
    sap.Base.Decimal.decimal_from sap.Base.Decimal.digit
evaluates = tt

queue_of : Option Server → List (String × String × String)
queue_of none = []
queue_of (some s) = elim (s.chans 0) [
  | none ↦ []
  | some c ↦ map (λ snap. (snap.roots_html, snap.patch_html, snap.status_html)) c.queue
]

-- The first snapshot has been read; eight are left.
queues :
    queue_of (run components plain calls (new_server (pos 1) false))
    ≡ ("1", "", "1")
      ∷ ("", "root", "1")
      ∷ ("", "child", "1")
      ∷ ("0", "", "paused")
      ∷ ("0", "", "0")
      ∷ ("1", "", "1")
      ∷ ("1", "", "1")
      ∷ ("0", "", "0")
      ∷ []
unfolding evaluates queue_of id_of content_of
queues = refl

-- A start that is received twice, and an event after the end of its span, change nothing in the store,
-- and yet an entry is appended again.
again : List (Call plain)
again =
    subscribes (pos 1)
    ∷ applies (some (start "root" none 10)) (pos 10)
    ∷ applies (some (start "child" (some "root") 11)) (pos 11)
    ∷ applies (some (happen "root" "warn" (some 12))) (pos 12)
    ∷ applies (some (start "child" (some "root") 11)) (pos 13)
    ∷ applies (some (finish "root" 14)) (pos 14)
    ∷ applies (some (happen "root" "late" (some 15))) (pos 15)
    ∷ []

appends_again :
    map (λ x. x.1) (queue_of (run components plain again (new_server (pos 1) false)))
    ≡ "" ∷ "" ∷ "root" ∷ "event warn" ∷ "child" ∷ "root" ∷ "event warn" ∷ []
unfolding evaluates queue_of id_of content_of again
appends_again = refl

run-new_server_example :
    (s : Server) × (run components plain calls (new_server (pos 1) false) ≡ some s)
    × Inv components s
    × (count s.store.roots ≤ root_limit (pos 1))
run-new_server_example = run-new_server components plain (pos 1) false calls

-- A server with one client that has not read its first snapshot.
abbrev opened : Server
opened = (subscribe components (pos 9) (new_server (pos 1) false)).0

-- The server after a clear, and the channel of the client, with two snapshots.
abbrev cleared : Server
cleared = elim (step components plain (clears (pos 10)) opened) [ none ↦ opened | some s ↦ s ]

abbrev waiting : Chan Snapshot
waiting = record {
  capacity = 8;
  queue =
      snapshot_locked components (pos 9) (new_server (pos 1) false)
      ∷ snapshot_locked components (pos 10) (record opened { store = clear opened.store })
      ∷ [];
  closed = false;
}

receive_n-current_example :
    (older : List Snapshot) × (newest : Snapshot) × ((receive_n 3 0 cleared).1
      ≡ map item older ++ item newest ∷ wait ∷ [])
    × (newest.status_html ≡ status_of components cleared)
unfolding evaluates
receive_n-current_example =
    receive_n-current components plain (pos 1) false (subscribes (pos 9) ∷ []) (clears (pos 10))
      opened cleared 0 waiting refl refl refl (here 0 refl) refl

abbrev fields_of : String → ℕ → List (Option EventState) → SpanFields
fields_of id at events = record {
  addr = at;
  trace_id = "trace-1";
  span_id = id;
  parent_span_id = "";
  name = id;
  started_at = pos at;
  ended_at = pos 0;
  attributes = [];
  events = events;
  ended = false;
  terminal_type = TerminalType.unspecified;
  error_message = "";
}

abbrev warn : EventState
warn = record { name = "warn"; at = pos 13; attributes = []; severity = Severity.unspecified }

patches-OnTimeline_example :
    OnTimeline components
      (fields_of "root" 10 (some warn ∷ []))
      (cons (span (fields_of "child" 12 []) nil) nil)
      0
      (pos 14)
      empty
      (patch_under components
        (
          span
              (fields_of "root" 10 (some warn ∷ []))
              (cons (span (fields_of "child" 12 []) nil) nil),
          0,
        )
        "child"
        (pos 14)
        empty)
    × OnTimeline components
        (fields_of "root" 10 (some warn ∷ []))
        (cons (span (fields_of "child" 12 []) nil) nil)
        0
        (pos 14)
        empty
        (patch_event components
          (
            span
                (fields_of "root" 10 (some warn ∷ []))
                (cons (span (fields_of "child" 12 []) nil) nil),
            0,
          )
          (pos 14)
          empty)
patches-OnTimeline_example =
    patches-OnTimeline components (fields_of "root" 10 (some warn ∷ []))
      (cons (span (fields_of "child" 12 []) nil) nil) 0 (pos 14) empty "child" tt tt

makes_dom_id :
    (span_dom_id (span (fields_of "a'b/1" 0 []) nil) ≡ "sap-span-a-b-1")
    × (span_dom_id null ≡ "sap-span-unknown")
unfolding evaluates span_dom_id safe_css_ident ident_chars ident_char is_ident_char span_card_key
makes_dom_id = (refl, refl)

dom_ids-AllPlain_example :
    AllPlain (span_dom_id (span (fields_of "a'b/1" 0 []) nil))
    × AllPlain (span_summary_dom_id (span (fields_of "a'b/1" 0 []) nil))
    × AllPlain (span_attributes_dom_id (span (fields_of "a'b/1" 0 []) nil))
    × AllPlain (span_timeline_dom_id (span (fields_of "a'b/1" 0 []) nil))
    × AllPlain (timeline_list_dom_id (span (fields_of "a'b/1" 0 []) nil))
    × AllPlain (attr_dom_id "\"><script>" none 3)
    × AllPlain (event_dom_id "\"><script>")
dom_ids-AllPlain_example = dom_ids-AllPlain (span (fields_of "a'b/1" 0 []) nil) "\"><script>" none 3

span_dom_id-injective_example : (fields_of "a1" 3 []).span_id ≡ (fields_of "a1" 5 []).span_id
unfolding all_ident is_ident_char span_dom_id str_dec
span_dom_id-injective_example =
    span_dom_id-injective (fields_of "a1" 3 []) (fields_of "a1" 5 []) nil nil a1_named a1_named refl
      refl refl
  where
    a1_named : ¬ (◌≡◌ {A = String} "a1" "")
    a1_named = ne_of_test "a1" "" refl
