-- ===== src/Tui/Scheduled.antt =====
-- The repaints that the terminal viewer of viewer/sap-tui/tui.go has scheduled.
use sap.Base.{ℕ, ◌+◌, ◌≡◌, refl, ap, ◌∙◌, none, some, Bool, true, false, arith}
use sap.Base.Int.{if◌then◌else◌}
use sap.Base.Text.{if_ind}
use sap.Message.Proto.{Proto, Time}
use sap.State.Store.{has_open_spans}
use sap.Sse.{State, no_state, connecting, connected, retrying, disconnected}
use sap.Tui.{
  Widgets, Key, quit_key, top_key, bottom_key, pause_key, clear_key, help_key, other_key, Cmd,
  no_cmd, quit, repaint_later, widget_cmd, Msg, window_size, key, spinner_tick, event, repaint_msg,
  state, timer_msg, other_msg, Model, repaint, toggle_paused, schedule_repaint, resize, on_key,
  on_state, stick, on_event, update,
}

-- The ticks that are under way by what a model says: one or none.
abbrev pub under_way : Bool → ℕ
under_way b = if b then 1 else 0

abbrev pub sends : Cmd → ℕ
sends repaint_later = 1
sends no_cmd = 0
sends quit = 0
sends widget_cmd = 0

abbrev pub takes : {T : Type 0} → Msg T → Bool
takes repaint_msg = true
takes (window_size _ _) = false
takes (key _) = false
takes (spinner_tick _) = false
takes (event _) = false
takes (state _ _ _) = false
takes (timer_msg _) = false
takes other_msg = false

module _ (w : Widgets) where
  repaint-pending : (m : Model w) → (repaint w m).repaint_pending ≡ m.repaint_pending
  unfolding repaint
  repaint-pending m =
      if_ind (λ (x : Model w). x.repaint_pending ≡ m.repaint_pending) m.ready (λ _. refl)
        (λ _. refl)

  toggle_paused-pending : (m : Model w) → (toggle_paused w m).repaint_pending ≡ m.repaint_pending
  unfolding toggle_paused
  toggle_paused-pending m =
      if_ind (λ (x : Model w). x.repaint_pending ≡ m.repaint_pending) m.paused (λ _. refl)
        (λ _. refl)

  stick-pending : (m : Model w) → (stick w m).repaint_pending ≡ m.repaint_pending
  unfolding stick
  stick-pending m =
      if_ind (λ (x : Model w). x.repaint_pending ≡ m.repaint_pending) m.stick_to_bottom (λ _. refl)
        (λ _. refl)

  -- What a handler leaves under way is what was under way before and what it sends.
  abbrev pub Counts : Bool → Model w × Cmd → Type 0
  Counts before x = under_way x.0.repaint_pending ≡ under_way before + sends x.1

  -- What a handler leaves of the tick: `repaintMsg`, at the end of the tick, clears the flag and sends
  -- no other; any other message counts what it sends.
  abbrev pub Leaves : Bool → Bool → Model w × Cmd → Type 0
  Leaves true before x = (x.0.repaint_pending ≡ false) × (sends x.1 ≡ 0)
  Leaves false before x = Counts before x

  idle : (x : Model w × Cmd) (b : Bool) → x.0.repaint_pending ≡ b → sends x.1 ≡ 0 → Counts b x
  idle x b e q = omega (arith, ap under_way e, q)

  schedule_repaint-Counts : (m : Model w) → Counts m.repaint_pending (schedule_repaint w m)
  unfolding schedule_repaint
  schedule_repaint-Counts m =
      if_ind (Counts m.repaint_pending) m.repaint_pending
        (λ q. idle (m, no_cmd) m.repaint_pending refl refl) (λ q. omega (arith, ap under_way q))

  on_key-Counts : (k : Key) (m : Model w) → Counts m.repaint_pending (on_key w k m)
  unfolding on_key
  on_key-Counts quit_key m = idle (on_key w quit_key m) m.repaint_pending refl refl
  on_key-Counts top_key m = idle (on_key w top_key m) m.repaint_pending refl refl
  on_key-Counts bottom_key m = idle (on_key w bottom_key m) m.repaint_pending refl refl
  on_key-Counts pause_key m =
      idle (on_key w pause_key m) m.repaint_pending
        (repaint-pending (toggle_paused w m) ∙ toggle_paused-pending m) refl
  on_key-Counts clear_key m = idle (on_key w clear_key m) m.repaint_pending (repaint-pending _) refl
  on_key-Counts help_key m = idle (on_key w help_key m) m.repaint_pending (repaint-pending _) refl
  on_key-Counts (other_key n) m = idle (on_key w (other_key n) m) m.repaint_pending refl refl

  on_state-Counts :
      (s : State) (now later : Time) (m : Model w)
      → Counts m.repaint_pending (on_state w s now later m)
  unfolding on_state
  on_state-Counts connected now later m =
      idle (on_state w connected now later m) m.repaint_pending (repaint-pending _) refl
  on_state-Counts retrying now later m =
      idle (on_state w retrying now later m) m.repaint_pending (repaint-pending _) refl
  on_state-Counts disconnected now later m =
      idle (on_state w disconnected now later m) m.repaint_pending (repaint-pending _) refl
  on_state-Counts connecting now later m =
      idle (on_state w connecting now later m) m.repaint_pending (repaint-pending _) refl
  on_state-Counts no_state now later m =
      idle (on_state w no_state now later m) m.repaint_pending (repaint-pending _) refl

  -- The flag `repaintPending` counts the repaint ticks under way, of which there is never more than
  -- one: a message other than `repaintMsg` adds to it what it sends, and `repaintMsg`, the end of the
  -- tick, clears it and sends none.
  pub update-Counts :
      (p : Proto) (msg : Msg p.Timestamp) (m : Model w)
      → Leaves (takes msg) m.repaint_pending (update w p msg m)
  unfolding update on_event resize
  update-Counts p (window_size width height) m =
      idle (update w p (window_size width height) m) m.repaint_pending (repaint-pending _) refl
  update-Counts p (key k) m = on_key-Counts k m
  update-Counts p (spinner_tick now) m =
      if_ind (λ (x : Model w). Counts m.repaint_pending (x, widget_cmd)) (has_open_spans m.store)
        (λ _.
          idle (repaint w (record m { spinner = w.spin m.spinner; now = now }), widget_cmd)
            m.repaint_pending (repaint-pending _) refl)
        (λ _.
          idle (record m { spinner = w.spin m.spinner; now = now }, widget_cmd) m.repaint_pending
            refl refl)
  update-Counts p (event none) m = idle (update w p (event none) m) m.repaint_pending refl refl
  update-Counts p (event (some r)) m =
      if_ind (Counts m.repaint_pending) m.paused (λ _. idle (m, no_cmd) m.repaint_pending refl refl)
        (λ _. schedule_repaint-Counts _)
  update-Counts p repaint_msg m =
      (stick-pending (repaint w (record m { repaint_pending = false })) ∙ repaint-pending _, refl)
  update-Counts p (state conn now later) m = on_state-Counts conn.state now later _
  update-Counts p (timer_msg now) m =
      idle (update w p (timer_msg now) m) m.repaint_pending (repaint-pending _) refl
  update-Counts p other_msg m = idle (update w p other_msg m) m.repaint_pending refl refl
