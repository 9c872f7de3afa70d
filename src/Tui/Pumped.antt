-- ===== src/Tui/Pumped.antt =====
-- The records that the goroutine of run in viewer/sap-tui/tui.go hands to the program.
use sap.Base.{◌≡◌, refl, sym, ap, ◌∙◌, Option, none, some, Bool, true, false, List, [], ◌∷◌, ◌++◌}
use mathlib.Core.List.{append_assoc, append-nil}
use sap.Base.Lists.{All}
use sap.Base.Text.{if_ind}
use sap.Message.{Record}
use sap.Message.Proto.{Proto, Time}
use sap.State.Store.{has_open_spans}
use sap.Sse.{State, no_state, connecting, connected, retrying, disconnected}
use sap.Tui.{
  Widgets, Key, quit_key, top_key, bottom_key, pause_key, clear_key, help_key, other_key, Msg,
  window_size, key, spinner_tick, event, repaint_msg, state, timer_msg, other_msg, Model, repaint,
  schedule_repaint, resize, on_key, on_state, stick, on_event, update,
}
use sap.Tui.Pump.{
  Stage, first_look, waiting, selecting, stopped, second_look, sending, Action, pump, stop, arrive,
  program, Run, select_record, pump_turn, stop_turn, act, acts, new_run,
}

-- The key of the pause among the messages.
abbrev pub pauses : {T : Type 0} → Msg T → Bool
pauses (key pause_key) = true
pauses (key quit_key) = false
pauses (key top_key) = false
pauses (key bottom_key) = false
pauses (key clear_key) = false
pauses (key help_key) = false
pauses (key (other_key _)) = false
pauses repaint_msg = false
pauses (window_size _ _) = false
pauses (spinner_tick _) = false
pauses (event _) = false
pauses (state _ _ _) = false
pauses (timer_msg _) = false
pauses other_msg = false

abbrev pub presses_pause : {T : Type 0} → Action T → Bool
presses_pause (program msg) = pauses msg
presses_pause pump = false
presses_pause stop = false
presses_pause (arrive _) = false

-- The records that come in on the channel.
abbrev pub arrivals : {T : Type 0} → List (Action T) → List (Option (Record T))
arrivals [] = []
arrivals (arrive r ∷ rest) = r ∷ arrivals rest
arrivals (pump ∷ rest) = arrivals rest
arrivals (stop ∷ rest) = arrivals rest
arrivals (program _ ∷ rest) = arrivals rest

module _ (w : Widgets) where
  repaint-paused : (m : Model w) → (repaint w m).paused ≡ m.paused
  unfolding repaint
  repaint-paused m = if_ind (λ (x : Model w). x.paused ≡ m.paused) m.ready (λ _. refl) (λ _. refl)

  stick-paused : (m : Model w) → (stick w m).paused ≡ m.paused
  unfolding stick
  stick-paused m =
      if_ind (λ (x : Model w). x.paused ≡ m.paused) m.stick_to_bottom (λ _. refl) (λ _. refl)

  schedule_repaint-paused : (m : Model w) → (schedule_repaint w m).0.paused ≡ m.paused
  unfolding schedule_repaint
  schedule_repaint-paused m =
      if_ind (λ (x : Model w × sap.Tui.Cmd). x.0.paused ≡ m.paused) m.repaint_pending (λ _. refl)
        (λ _. refl)

  on_state-paused :
      (s : State) (now later : Time) (m : Model w) → (on_state w s now later m).0.paused ≡ m.paused
  unfolding on_state
  on_state-paused no_state now later m = repaint-paused _
  on_state-paused connecting now later m = repaint-paused _
  on_state-paused connected now later m = repaint-paused _
  on_state-paused retrying now later m = repaint-paused _
  on_state-paused disconnected now later m = repaint-paused _

  module _ (p : Proto) where
    on_event-paused :
        (r : Option (Record p.Timestamp)) (m : Model w) → (on_event w p r m).0.paused ≡ m.paused
    unfolding on_event
    on_event-paused none m = refl
    on_event-paused (some r) m =
        if_ind (λ (x : Model w × sap.Tui.Cmd). x.0.paused ≡ m.paused) m.paused (λ _. refl)
          (λ _. schedule_repaint-paused _)

    -- Only the key of the pause changes the flag.
    update-paused :
        (msg : Msg p.Timestamp) (m : Model w)
        → pauses msg ≡ false
        → (update w p msg m).0.paused ≡ m.paused
    unfolding update on_key resize
    update-paused (window_size x y) m e = repaint-paused _
    update-paused (key quit_key) m e = refl
    update-paused (key top_key) m e = refl
    update-paused (key bottom_key) m e = refl
    update-paused (key pause_key) m e = cc e
    update-paused (key clear_key) m e = repaint-paused _
    update-paused (key help_key) m e = repaint-paused _
    update-paused (key (other_key n)) m e = refl
    update-paused (spinner_tick now) m e =
        if_ind (λ (x : Model w). x.paused ≡ m.paused) (has_open_spans m.store)
          (λ _. repaint-paused _) (λ _. refl)
    update-paused (event r) m e = on_event-paused r m
    update-paused repaint_msg m e = stick-paused _ ∙ repaint-paused _
    update-paused (state c now later) m e = on_state-paused c.state now later _
    update-paused (timer_msg now) m e = repaint-paused _
    update-paused other_msg m e = refl

    abbrev in_hand : Stage (Option (Record p.Timestamp)) → List (Option (Record p.Timestamp))
    in_hand (second_look r) = r ∷ []
    in_hand (sending r) = r ∷ []
    in_hand first_look = []
    in_hand waiting = []
    in_hand selecting = []
    in_hand stopped = []

    -- What was handed over, then what the goroutine holds, then what waits in the channel.
    abbrev pub line : Run w p → List (Option (Record p.Timestamp))
    line s = s.sent ++ (in_hand s.stage ++ s.records)

    -- A state of the run with the flag down and a given line.
    abbrev Up : List (Option (Record p.Timestamp)) → Run w p → Type 0
    Up rs s = (s.model.paused ≡ false) × (line s ≡ rs)

    at_stage :
        (s : Run w p) (st : Stage (Option (Record p.Timestamp)))
        → s.stage ≡ st
        → s.sent ++ (in_hand st ++ s.records) ≡ line s
    at_stage s st e = ap (λ x. s.sent ++ (in_hand x ++ s.records)) (sym e)

    select_record-line :
        (rs : List (Option (Record p.Timestamp))) (s : Run w p)
        → s.stage ≡ selecting
        → s.records ≡ rs
        → s.model.paused ≡ false
        → Up (line s) (select_record w p rs s)
    unfolding select_record
    select_record-line [] s e q u = (u, refl)
    select_record-line (r ∷ rs) s e q u =
        (u, ap (λ x. s.sent ++ x) (sym q) ∙ at_stage s selecting e)

    pump_turn-line :
        (st : Stage (Option (Record p.Timestamp))) (s : Run w p)
        → s.stage ≡ st
        → s.model.paused ≡ false
        → Up (line s) (pump_turn w p st s)
    unfolding pump_turn
    pump_turn-line first_look s e u =
        if_ind (Up (line s)) s.model.paused (λ _. (u, at_stage s first_look e))
          (λ _. (u, at_stage s first_look e))
    pump_turn-line waiting s e u = (u, at_stage s waiting e)
    pump_turn-line selecting s e u = select_record-line s.records s e refl u
    pump_turn-line (second_look r) s e u =
        if_ind (Up (line s)) s.model.paused (λ v. absurd (up_or_down (sym v ∙ u)))
          (λ _. (u, at_stage s (second_look r) e))
      where
        up_or_down : true ≡ false → ⊥
        up_or_down v = cc v
    pump_turn-line (sending r) s e u = (
      update-paused (event r) s.model refl ∙ u,
      append_assoc s.sent (r ∷ []) s.records ∙ at_stage s (sending r) e,
    )
    pump_turn-line stopped s e u = (u, refl)

    stop_turn-line :
        (st : Stage (Option (Record p.Timestamp))) (s : Run w p)
        → s.stage ≡ st
        → s.model.paused ≡ false
        → Up (line s) (stop_turn w p st s)
    unfolding stop_turn
    stop_turn-line first_look s e u = (u, refl)
    stop_turn-line waiting s e u = (u, at_stage s waiting e)
    stop_turn-line selecting s e u = (u, at_stage s selecting e)
    stop_turn-line (second_look r) s e u = (u, refl)
    stop_turn-line (sending r) s e u = (u, refl)
    stop_turn-line stopped s e u = (u, refl)

    arrive-line :
        (r : Option (Record p.Timestamp)) (s : Run w p)
        → s.sent ++ (in_hand s.stage ++ (s.records ++ (r ∷ []))) ≡ line s ++ (r ∷ [])
    arrive-line r s =
        ap (λ x. s.sent ++ x) (sym (append_assoc (in_hand s.stage) s.records (r ∷ [])))
        ∙ sym (append_assoc s.sent (in_hand s.stage ++ s.records) (r ∷ []))

    then_more :
        (s : Run w p) (before after more : List (Option (Record p.Timestamp)))
        → before ≡ after
        → Up (before ++ more) s
        → Up (after ++ more) s
    then_more s before after more e up = (up.0, up.1 ∙ ap (λ x. x ++ more) e)

    acts-line :
        (todo : List (Action p.Timestamp)) (s : Run w p)
        → All (λ a. presses_pause a ≡ false) todo
        → s.model.paused ≡ false
        → Up (line s ++ arrivals todo) (acts w p todo s)
    unfolding acts act
    acts-line [] s h u = (u, sym (append-nil (line s)))
    acts-line (pump ∷ rest) s h u =
        let turn = pump_turn-line s.stage s refl u in
        then_more (acts w p rest (pump_turn w p s.stage s)) _ (line s) (arrivals rest) turn.1
          (acts-line rest (pump_turn w p s.stage s) h.1 turn.0)
    acts-line (stop ∷ rest) s h u =
        let turn = stop_turn-line s.stage s refl u in
        then_more (acts w p rest (stop_turn w p s.stage s)) _ (line s) (arrivals rest) turn.1
          (acts-line rest (stop_turn w p s.stage s) h.1 turn.0)
    acts-line (arrive r ∷ rest) s h u =
        let run = acts-line rest (record s { records = s.records ++ (r ∷ []) }) h.1 u in
        (
          run.0,
          run.1
              ∙ ap (λ x. x ++ arrivals rest) (arrive-line r s)
              ∙ append_assoc (line s) (r ∷ []) (arrivals rest),
        )
    acts-line (program msg ∷ rest) s h u =
        acts-line rest (record s { model = (update w p msg s.model).0 }) h.1
          (update-paused msg s.model h.0 ∙ u)

    -- From a model that is not paused, as long as nobody presses the key of the pause, no record is
    -- lost, added or moved: those that were handed to the program, then the one that the goroutine
    -- holds, then those that wait are the records that came in, in their order.
    pub acts-in_order :
        (m : Model w) (todo : List (Action p.Timestamp))
        → m.paused ≡ false
        → All (λ a. presses_pause a ≡ false) todo
        → line (acts w p todo (new_run w p m)) ≡ arrivals todo
    unfolding new_run
    acts-in_order m todo u h = (acts-line todo (new_run w p m) h u).1
