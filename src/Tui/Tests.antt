-- ===== src/Tui/Tests.antt =====
-- The terminal viewer of viewer/sap-tui/tui.go with plain widgets and a concrete history.
use sap.Base.{◌≡◌, refl, String, none, some, List, [], ◌∷◌, true, false}
use sap.Base.Int.{pos}
use sap.Message.{Record, span_started}
use sap.Message.Proto.{Time, plain}
use sap.State.Tree.{Spans, nil, cons}
use sap.State.Store.{new_store}
use sap.Sse.{at_state, connecting}
use sap.Tui.{Widgets, key, help_key, pause_key, event, Model, update}
use sap.Tui.Drawn.{Drawn}
use sap.Tui.Pump.{Action, pump, arrive, program, select_record, pump_turn, act, acts, new_run}
use sap.Tui.Pumped.{arrivals, line, acts-in_order}
use sap.Tui.Scheduled.{Leaves, update-Counts}

-- A viewport is its content; the drawing says whether there are spans.
draw : Spans → String
draw nil = "no spans"
draw (cons s ss) = "spans"

abbrev plain_widgets : Widgets
plain_widgets = record {
  Viewport = String;
  Spinner = Unit {0};
  Timer = Unit {0};
  Cache = Unit {0};
  new_viewport = λ _ _. "";
  set_size = λ _ _ v. v;
  set_content = λ s _. s;
  content = λ v. v;
  goto_top = λ v. v;
  goto_bottom = λ v. v;
  at_bottom = λ _. true;
  scroll = λ _ v. v;
  spin = λ s. s;
  spinner_view = λ _. "*";
  timer_update = λ t. t;
  new_timer = λ _. tt;
  render = λ roots _ _ _ _ c. (draw roots, c);
  no_cache = tt;
}

abbrev blank : Model plain_widgets
blank = record {
  vp = "no spans";
  help_all = false;
  help_width = pos 80;
  spinner = tt;
  retry_timer = tt;
  store = new_store;
  render_cache = tt;
  conn = at_state connecting 1;
  paused = false;
  width = pos 80;
  height = pos 24;
  ready = true;
  repaint_pending = false;
  stick_to_bottom = false;
  now = pos 9;
}

abbrev a_start : Record Time
a_start = record {
  emitted_at = none;
  kind = span_started (record {
    trace_id = some "t";
    span_id = some "s";
    parent_span_id = none;
    name = some "n";
    started_at = some (pos 5);
    attributes = [];
  });
}

update-Counts_example :
    Leaves plain_widgets false false (update plain_widgets plain (event (some a_start)) blank)
update-Counts_example = update-Counts plain_widgets plain (event (some a_start)) blank

-- Two records come in; the first is handed over beside a key that the user presses.
abbrev busy : List (Action Time)
busy =
    arrive (some a_start)
    ∷ pump
    ∷ pump
    ∷ program (key help_key)
    ∷ arrive none
    ∷ pump
    ∷ pump
    ∷ pump
    ∷ []

acts-in_order_example :
    line plain_widgets plain (acts plain_widgets plain busy (new_run plain_widgets plain blank))
    ≡ arrivals busy
acts-in_order_example =
    acts-in_order plain_widgets plain blank busy refl
      (refl, (refl, (refl, (refl, (refl, (refl, (refl, (refl, tt))))))))

sends_first :
    (acts plain_widgets plain busy (new_run plain_widgets plain blank)).sent ≡ some a_start ∷ []
unfolding acts act pump_turn select_record new_run update sap.Tui.on_key sap.Tui.repaint
    sap.Tui.on_event sap.Tui.schedule_repaint
sends_first = refl

-- A record that the goroutine took before the key of the pause is dropped.
drops_taken :
    (acts plain_widgets plain
      (arrive (some a_start) ∷ pump ∷ pump ∷ program (key pause_key) ∷ pump ∷ pump ∷ [])
      (new_run plain_widgets plain blank)).sent
    ≡ []
unfolding acts act pump_turn select_record new_run update sap.Tui.on_key sap.Tui.repaint
    sap.Tui.toggle_paused
drops_taken = refl
