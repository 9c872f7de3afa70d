-- ===== src/State/History.antt =====
-- The calls that a viewer makes of a store, in any order.
use sap.Base.{Option, List, [], ◌∷◌, Bool}
use sap.Base.Int.{ℤ}
use sap.Message.{Record}
use sap.Message.Proto.{Proto, Time}
use sap.State.Store.{
  Store, new_store_with_options, clear, mark_open_spans_stale, clear_open_spans, limit_roots,
}
use sap.State.Apply.{apply}
use sap.State.Invariant.{
  Inv, new_store-Inv, clear-Inv, apply-Inv, mark_open_spans_stale-Inv, limit_roots-Inv,
  clear_open_spans-Inv,
}

pub data Call (p : Proto) : Type 0 where
  applies : Option (Record p.Timestamp) → Call p
  clears clears_open : Call p
  limits : ℤ → Call p
  marks : Time → Call p

module _ (p : Proto) where
  unfoldable pub step : Call p → Store → Store
  step (applies r) s = apply p r s
  step clears s = clear s
  step clears_open s = clear_open_spans s
  step (limits n) s = limit_roots n s
  step (marks at) s = mark_open_spans_stale s at

  unfoldable pub run : List (Call p) → Store → Store
  unfolding step
  run [] s = s
  run (c ∷ cs) s = run cs (step c s)

  step-Inv : {s : Store} (c : Call p) → Inv s → Inv (step c s)
  unfolding step
  step-Inv (applies r) v = apply-Inv p r v
  step-Inv clears v = clear-Inv v
  step-Inv clears_open v = clear_open_spans-Inv v
  step-Inv (limits n) v = limit_roots-Inv n v
  step-Inv (marks at) v = mark_open_spans_stale-Inv at v

  run-Inv : {s : Store} (cs : List (Call p)) → Inv s → Inv (run cs s)
  unfolding run
  run-Inv {s} [] v = v
  run-Inv {s} (c ∷ cs) v = run-Inv {s = step c s} cs (step-Inv c v)

  -- After any sequence of records and calls on a new store, with either option, `byID` holds
  -- exactly the spans of the tree, each under its own non-empty ID and by its own address, and
  -- only a span in the tree carries a stale mark.
  pub run-new_store-Inv :
      (allow : Bool) (cs : List (Call p)) → Inv (run cs (new_store_with_options allow))
  run-new_store-Inv allow cs = run-Inv cs (new_store-Inv allow)
