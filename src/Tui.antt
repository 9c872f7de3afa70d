-- ===== src/Tui.antt =====
-- The model of viewer/sap-tui/tui.go and its Update. The widgets of bubbles and the drawing of spans
-- by lipgloss are an interface; the message types of bubbletea are the constructors of Msg.
pub mod Drawn
pub mod Scheduled
pub mod Render
pub mod Cache
pub mod Children
pub mod Settled
pub mod Coherent
pub mod Pump
pub mod Pumped
mod CacheTests
mod Tests
use sap.Base.{ℕ, zero, suc, ◌*◌, ◌/◌, ◌≡◌, String, Option, none, some, Bool, true, false, not}
use sap.Base.Int.{ℤ, pos, pos_part, ltb_ℤ, sub_ℤ, if◌then◌else◌}
use sap.Base.Maps.{Map}
use sap.Message.{Record}
use sap.Message.Proto.{Proto, Time}
use sap.State.Tree.{Spans}
use sap.State.Store.{
  Store, new_store_with_options, clear, clear_open_spans, limit_roots, mark_open_spans_stale,
  has_open_spans,
}
use sap.State.Apply.{apply}
use sap.Sse.{State, ConnectionState, no_state, connecting, connected, retrying, disconnected}

-- The bindings that `Update` looks for; another key has a number.
pub data Key : Type 0 where
  quit_key top_key bottom_key pause_key clear_key help_key : Key
  other_key : ℕ → Key

pub record Widgets : Type 1 where
  pub Viewport : Type 0
  pub Spinner : Type 0
  pub Timer : Type 0
  pub Cache : Type 0
  -- `viewport.New`, with a width and a height, and the writes of `Width` and `Height`
  pub new_viewport : ℤ → ℤ → Viewport
  pub set_size : ℤ → ℤ → Viewport → Viewport
  pub set_content : String → Viewport → Viewport
  pub content : Viewport → String
  pub goto_top : Viewport → Viewport
  pub goto_bottom : Viewport → Viewport
  pub at_bottom : Viewport → Bool
  -- `Update` on a key that the model handles or passes on
  pub scroll : Key → Viewport → Viewport
  pub spin : Spinner → Spinner
  pub spinner_view : Spinner → String
  pub timer_update : Timer → Timer
  pub new_timer : ℤ → Timer
  -- `renderRoots` of render.go, which fills the cache
  pub render : Spans → ℤ → String → Time → Map Time → Cache → String × Cache
  pub no_cache : Cache

-- The viewport shows the content that it was given last.
pub record IsWidgets (w : Widgets) : Type 0 where
  pub content-set_content : (s : String) (v : w.Viewport) → w.content (w.set_content s v) ≡ s
  pub content-goto_top : (v : w.Viewport) → w.content (w.goto_top v) ≡ w.content v
  pub content-goto_bottom : (v : w.Viewport) → w.content (w.goto_bottom v) ≡ w.content v
  pub content-scroll : (k : Key) (v : w.Viewport) → w.content (w.scroll k v) ≡ w.content v

-- A command that `Update` returns; `repaint_later` is the tick that sends `repaintMsg`.
pub data Cmd : Type 0 where
  no_cmd quit repaint_later widget_cmd : Cmd

pub data Msg (T : Type 0) : Type 0 where
  window_size : ℤ → ℤ → Msg T
  key : Key → Msg T
  spinner_tick : Time → Msg T
  event : Option (Record T) → Msg T
  repaint_msg : Msg T
  -- with the two readings of the clock that the handler may make
  state : ConnectionState → Time → Time → Msg T
  timer_msg : Time → Msg T
  other_msg : Msg T

abbrev pub max_roots : ℕ
max_roots = 25

abbrev pub second : ℕ
second = 1_000_000_000

-- `max(40, m.width-2)`
unfoldable pub content_width : ℤ → ℤ
content_width width =
    let inner = sub_ℤ width (pos 2) in if ltb_ℤ (pos 40) inner then inner else pos 40

-- `remaining`, clamped at zero and cut to seconds.
unfoldable pub retry_interval : Time → Time → ℤ
retry_interval retry_at now = pos (pos_part (sub_ℤ retry_at now) / second * second)

pub record Model (w : Widgets) : Type 0 where
  pub vp : w.Viewport
  pub help_all : Bool
  pub help_width : ℤ
  pub spinner : w.Spinner
  pub retry_timer : w.Timer
  pub store : Store
  pub render_cache : w.Cache
  pub conn : ConnectionState
  pub paused : Bool
  pub width : ℤ
  pub height : ℤ
  pub ready : Bool
  pub repaint_pending : Bool
  pub stick_to_bottom : Bool
  pub now : Time

module _ (w : Widgets) where
  -- `repaint`
  unfoldable pub repaint : Model w → Model w
  unfolding content_width
  repaint m =
      if m.ready
      then (let (text, cache) =
            w.render m.store.roots (content_width m.width) (w.spinner_view m.spinner) m.now
              m.store.stale_open_at m.render_cache in
          record m { vp = w.set_content text m.vp; render_cache = cache })
      else m

  -- `togglePaused`
  unfoldable pub toggle_paused : Model w → Model w
  toggle_paused m =
      if m.paused
      then record m { paused = false }
      else record m { paused = true; store = clear_open_spans m.store; render_cache = w.no_cache }

  -- `scheduleRepaint`
  unfoldable pub schedule_repaint : Model w → Model w × Cmd
  schedule_repaint m =
      if m.repaint_pending
      then (m, no_cmd)
      else (record m { repaint_pending = true }, repaint_later)

  unfoldable pub resize : ℤ → ℤ → Model w → Model w
  resize width height m = record m {
    vp =
        if m.ready
        then w.set_size width (sub_ℤ height (pos 2)) m.vp
        else w.new_viewport width (sub_ℤ height (pos 2));
    ready = true;
    render_cache =
        if ltb_ℤ m.width width
        then w.no_cache
        else (if ltb_ℤ width m.width then w.no_cache else m.render_cache);
    help_width = width;
    width = width;
    height = height;
  }

  unfoldable pub on_key : Key → Model w → Model w × Cmd
  on_key quit_key m = (m, quit)
  on_key top_key m = (record m { vp = w.scroll top_key (w.goto_top m.vp) }, widget_cmd)
  on_key bottom_key m = (record m { vp = w.scroll bottom_key (w.goto_bottom m.vp) }, widget_cmd)
  on_key pause_key m = (repaint (toggle_paused m), no_cmd)
  on_key clear_key m =
      (repaint (record m { store = clear m.store; render_cache = w.no_cache }), no_cmd)
  on_key help_key m = (repaint (record m { help_all = not m.help_all }), no_cmd)
  on_key (other_key n) m = (record m { vp = w.scroll (other_key n) m.vp }, widget_cmd)

  unfoldable pub on_state : State → Time → Time → Model w → Model w × Cmd
  on_state connected now later m =
      (repaint (record m { conn = record m.conn { err = "" } }), widget_cmd)
  on_state retrying now later m = (
    repaint (record m {
      store = mark_open_spans_stale m.store now;
      retry_timer = w.new_timer (retry_interval m.conn.retry_at later);
    }),
    widget_cmd,
  )
  on_state disconnected now later m =
      (repaint (record m { store = mark_open_spans_stale m.store now }), widget_cmd)
  on_state connecting now later m = (repaint m, no_cmd)
  on_state no_state now later m = (repaint m, no_cmd)

  unfoldable pub stick : Model w → Model w
  stick m =
      if m.stick_to_bottom then record m { vp = w.goto_bottom m.vp; stick_to_bottom = false } else m

  module _ (p : Proto) where
    unfoldable pub on_event : Option (Record p.Timestamp) → Model w → Model w × Cmd
    on_event none m = (m, no_cmd)
    on_event (some r) m =
        if m.paused
        then (m, no_cmd)
        else schedule_repaint (record m {
          stick_to_bottom = if w.at_bottom m.vp then true else m.stick_to_bottom;
          store = limit_roots (pos max_roots) (apply p (some r) m.store);
        })

    -- `Update`
    unfoldable pub update : Msg p.Timestamp → Model w → Model w × Cmd
    update (window_size width height) m = (repaint (resize width height m), no_cmd)
    update (key k) m = on_key k m
    update (spinner_tick now) m =
        let m' = record m { spinner = w.spin m.spinner; now = now } in
        (if has_open_spans m'.store then repaint m' else m', widget_cmd)
    update (event r) m = on_event r m
    update repaint_msg m = (stick (repaint (record m { repaint_pending = false })), no_cmd)
    update (state conn now later) m = on_state conn.state now later (record m { conn = conn })
    update (timer_msg now) m =
        (repaint (record m { retry_timer = w.timer_update m.retry_timer; now = now }), widget_cmd)
    update other_msg m = (m, no_cmd)
