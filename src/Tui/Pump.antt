-- ===== src/Tui/Pump.antt =====
-- The goroutine of run in viewer/sap-tui/tui.go that passes records on to the program, beside the
-- program's own calls of Update. Both read and write the flag of the pause, which is `paused` of
-- the model. What p.Send has handed over is handled by Update before the next turn of the goroutine,
-- since Send waits for the program to take the message.
use sap.Base.{Option, Bool, false, List, [], ◌∷◌, ◌++◌}
use sap.Base.Int.{pos, if◌then◌else◌}
use sap.Message.{Record}
use sap.Message.Proto.{Proto, Time}
use sap.State.Store.{new_store_with_options}
use sap.Sse.{no_state, at_state}
use sap.Tui.{Widgets, Msg, event, Model, update}

-- Where the goroutine is: before its first look at the flag, at the wait of 50 milliseconds, at the
-- select of a record, with a record before its second look, at p.Send, or at its end.
pub data Stage (R : Type 0) : Type 0 where
  first_look waiting selecting stopped : Stage R
  second_look sending : R → Stage R

-- A turn of the goroutine, its end by the context or a closed channel, a record that comes in on
-- the channel, or a message that the program gets from elsewhere.
pub data Action (T : Type 0) : Type 0 where
  pump stop : Action T
  arrive : Option (Record T) → Action T
  program : Msg T → Action T

module _ (w : Widgets) (p : Proto) where
  pub record Run : Type 0 where
    pub model : Model w
    pub stage : Stage (Option (Record p.Timestamp))
    -- the messages that wait in the channel
    pub records : List (Option (Record p.Timestamp))
    -- the messages that p.Send has handed over
    pub sent : List (Option (Record p.Timestamp))

  unfoldable pub select_record : List (Option (Record p.Timestamp)) → Run → Run
  select_record [] s = s
  select_record (r ∷ rs) s = record s { stage = second_look r; records = rs }

  unfoldable pub pump_turn : Stage (Option (Record p.Timestamp)) → Run → Run
  pump_turn first_look s =
      if s.model.paused then record s { stage = waiting } else record s { stage = selecting }
  pump_turn waiting s = record s { stage = first_look }
  pump_turn selecting s = select_record s.records s
  pump_turn (second_look r) s =
      if s.model.paused then record s { stage = first_look } else record s { stage = sending r }
  pump_turn (sending r) s = record s {
    stage = first_look;
    model = (update w p (event r) s.model).0;
    sent = s.sent ++ (r ∷ []);
  }
  pump_turn stopped s = s

  unfoldable pub stop_turn : Stage (Option (Record p.Timestamp)) → Run → Run
  stop_turn first_look s = s
  stop_turn waiting s = record s { stage = stopped }
  stop_turn selecting s = record s { stage = stopped }
  stop_turn (second_look r) s = s
  stop_turn (sending r) s = s
  stop_turn stopped s = s

  unfoldable pub act : Action p.Timestamp → Run → Run
  act pump s = pump_turn s.stage s
  act stop s = stop_turn s.stage s
  act (arrive r) s = record s { records = s.records ++ (r ∷ []) }
  act (program msg) s = record s { model = (update w p msg s.model).0 }

  unfoldable pub acts : List (Action p.Timestamp) → Run → Run
  acts [] s = s
  acts (a ∷ rest) s = acts rest (act a s)

  -- `newModel`, with the spinner and the timer that it makes; the viewport is made by the first
  -- message about the size of the window.
  unfoldable pub new_model : Bool → w.Spinner → w.Timer → w.Viewport → Time → Model w
  new_model options spinner timer vp now = record {
    vp = vp;
    help_all = false;
    help_width = pos 0;
    spinner = spinner;
    retry_timer = timer;
    store = new_store_with_options options;
    render_cache = w.no_cache;
    conn = at_state no_state 0;
    paused = false;
    width = pos 0;
    height = pos 0;
    ready = false;
    repaint_pending = false;
    stick_to_bottom = false;
    now = now;
  }

  -- `run` before the first turn.
  unfoldable pub new_run : Model w → Run
  new_run m = record { model = m; stage = first_look; records = []; sent = [] }
