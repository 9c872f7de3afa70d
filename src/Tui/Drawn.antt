-- ===== src/Tui/Drawn.antt =====
-- What the terminal viewer of viewer/sap-tui/tui.go draws.
use sap.Base.{◌≡◌, ◌⊎◌, true, false}
use sap.Message.Proto.{Proto}
use sap.Sse.{State}
use sap.Tui.{Widgets, Model, content_width}

module _ (w : Widgets) where
  -- The cache that a message finds, or an empty one.
  abbrev OldCache : Model w → w.Cache → Type 0
  OldCache m cache = (cache ≡ m.render_cache) ⊎ (cache ≡ w.no_cache)

  -- What a message that takes the model `m` to `m'` does to the screen.
  pub data Drawn (m m' : Model w) : Type 0 where
    -- there is no screen yet
    not_ready : m'.ready ≡ false → Drawn m m'
    -- the screen, the store, the width and what is scheduled are as they were
    unchanged :
        w.content m'.vp ≡ w.content m.vp
        → m'.store ≡ m.store
        → m'.width ≡ m.width
        → m'.repaint_pending ≡ m.repaint_pending
        → Drawn m m'
    -- the screen is drawn from the model as it is now, on the cache from before or an empty one
    redrawn :
        (cache : w.Cache)
        → OldCache m cache
        → (w.content m'.vp, m'.render_cache)
          ≡ w.render m'.store.roots
              (content_width m'.width)
              (w.spinner_view m'.spinner)
              m'.now
              m'.store.stale_open_at
              cache
        → Drawn m m'
    -- the screen is as it was, and a repaint is scheduled
    waits :
        w.content m'.vp ≡ w.content m.vp
        → m'.width ≡ m.width
        → m'.repaint_pending ≡ true
        → Drawn m m'
