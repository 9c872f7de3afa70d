-- ===== src/State/Tree.antt =====
-- SpanState and EventState of state/state.go, and the walks over a span and its descendants.
-- A `*SpanState` is a tree: nil, or an object with its address and its children. Every object is
-- owned by one slice, so the tree of roots is the heap; a pointer elsewhere is an address in it.
pub mod Nodes
use sap.Base.{
  ℕ, zero, suc, ◌+◌, String, Option, none, some, List, [], ◌∷◌, ◌++◌, Bool, true, false, ite,
  str_dec, ℕ_discrete,
}
use sap.Base.Int.{if◌then◌else◌}
use sap.Base.Maps.{Map, insert}
use sap.Message.Attributes.{Attribute}
use sap.Message.Ended.{TerminalType}
use sap.Message.Events.{Severity}
use sap.Message.Proto.{Time}

pub record EventState : Type 0 where
  pub name : String
  pub at : Time
  pub attributes : List (Option Attribute)
  pub severity : Severity

-- The fields of a SpanState but its children, with the address of the object.
pub record SpanFields : Type 0 where
  pub addr : ℕ
  pub trace_id : String
  pub span_id : String
  pub parent_span_id : String
  pub name : String
  pub started_at : Time
  pub ended_at : Time
  pub attributes : List (Option Attribute)
  pub events : List (Option EventState)
  pub ended : Bool
  pub terminal_type : TerminalType
  pub error_message : String

mutual
  pub data SpanState : Type 0 where
    null : SpanState
    span : SpanFields → Spans → SpanState

  pub data Spans : Type 0 where
    nil : Spans
    cons : SpanState → Spans → Spans

-- Slices of span pointers: `len`, `append`, `s[:n]` and `s[n:]`.
unfoldable pub count : Spans → ℕ
count nil = 0
count (cons t ts) = suc (count ts)

unfoldable pub append : Spans → Spans → Spans
append nil us = us
append (cons t ts) us = cons t (append ts us)

unfoldable pub take_spans : ℕ → Spans → Spans
take_spans zero ts = nil
take_spans (suc n) nil = nil
take_spans (suc n) (cons t ts) = cons t (take_spans n ts)

unfoldable pub drop_spans : ℕ → Spans → Spans
drop_spans zero ts = ts
drop_spans (suc n) nil = nil
drop_spans (suc n) (cons t ts) = drop_spans n ts

-- All objects, a span before its descendants.
unfoldable mutual
  pub fields : SpanState → List SpanFields
  fields null = []
  fields (span f ts) = f ∷ fields_all ts

  pub fields_all : Spans → List SpanFields
  fields_all nil = []
  fields_all (cons t ts) = fields t ++ fields_all ts

unfoldable pub first_found : SpanState × ℕ → SpanState × ℕ → SpanState × ℕ
first_found (null, d) rest = rest
first_found (span f ts, d) rest = (span f ts, d)

-- `findSpan`, and the loop over a slice that it shares with `FindSpan`.
unfoldable mutual
  unfolding first_found

  pub find_span : SpanState → String → ℕ → SpanState × ℕ
  find_span null id depth = (null, 0)
  find_span (span f ts) id depth =
      ite (str_dec f.span_id id) (span f ts, depth) (find_children ts id (depth + 1))

  pub find_children : Spans → String → ℕ → SpanState × ℕ
  find_children nil id depth = (null, 0)
  find_children (cons t ts) id depth =
      first_found (find_span t id depth) (find_children ts id depth)

unfoldable mutual
  pub has_open_span : SpanState → Bool
  has_open_span null = false
  has_open_span (span f ts) = if f.ended then has_open_child ts else true

  pub has_open_child : Spans → Bool
  has_open_child nil = false
  has_open_child (cons t ts) = if has_open_span t then true else has_open_child ts

unfoldable pub mark_one : String → Time → Map Time → Map Time
mark_one id at m = elim (m id) [ none ↦ insert id at m | some _ ↦ m ]

unfoldable mutual
  unfolding mark_one

  pub mark_open_span_stale : SpanState → Time → Map Time → Map Time
  mark_open_span_stale null at m = m
  mark_open_span_stale (span f ts) at m =
      mark_children ts at (if f.ended then m else mark_one f.span_id at m)

  pub mark_children : Spans → Time → Map Time → Map Time
  mark_children nil at m = m
  mark_children (cons t ts) at m = mark_children ts at (mark_open_span_stale t at m)

-- A read, a write and an append to `Children` through a pointer, which is an address.
unfoldable pub first_some : Option SpanFields → Option SpanFields → Option SpanFields
first_some none o = o
first_some (some f) o = some f

unfoldable mutual
  unfolding first_some

  pub read : ℕ → SpanState → Option SpanFields
  read a null = none
  read a (span f ts) = ite (ℕ_discrete f.addr a) (some f) (read_in a ts)

  pub read_in : ℕ → Spans → Option SpanFields
  read_in a nil = none
  read_in a (cons t ts) = first_some (read a t) (read_in a ts)

unfoldable mutual
  pub write : ℕ → (SpanFields → SpanFields) → SpanState → SpanState
  write a g null = null
  write a g (span f ts) = span (ite (ℕ_discrete f.addr a) (g f) f) (write_in a g ts)

  pub write_in : ℕ → (SpanFields → SpanFields) → Spans → Spans
  write_in a g nil = nil
  write_in a g (cons t ts) = cons (write a g t) (write_in a g ts)

unfoldable mutual
  pub add_child : ℕ → SpanState → SpanState → SpanState
  add_child a u null = null
  add_child a u (span f ts) =
      span f (
        ite (ℕ_discrete f.addr a) (append (add_child_in a u ts) (cons u nil)) (add_child_in a u ts))

  pub add_child_in : ℕ → SpanState → Spans → Spans
  add_child_in a u nil = nil
  add_child_in a u (cons t ts) = cons (add_child a u t) (add_child_in a u ts)
