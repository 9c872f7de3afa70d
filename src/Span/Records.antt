-- ===== src/Span/Records.antt =====
-- The records of sap.go. `clock n` is the result of the n-th reading of `time.Now`.
use sap.Base.{ℕ, String, Option, none, some, List}
use sap.Message.{Record, build}
use sap.Message.Attributes.{Attribute}
use sap.Message.Ended.{TerminalType}
use sap.Message.Proto.{Proto, Time}
use sap.Attr.{clone_attributes}
use sap.Span.{Span, Runtime, EventConfig, string_or_nil, severity_or_nil, tick}

module _ (p : Proto) (clock : ℕ → Time) where
  unfoldable pub now : Runtime p.Timestamp → p.Timestamp
  now rt = p.new_timestamp (clock rt.clock_read)

  -- `Record_builder` of a started span; `EmittedAt` is read from the clock before `StartedAt`.
  unfoldable pub started_record :
      Span → String → List (Option Attribute) → Runtime p.Timestamp → Record p.Timestamp
  unfolding now tick string_or_nil clone_attributes
  started_record s name attrs rt = build (record {
    emitted_at = some (now rt);
    started = some (record {
      trace_id = some s.trace_id;
      span_id = some s.span_id;
      parent_span_id = string_or_nil s.parent_id;
      name = some name;
      started_at = some (now (tick rt));
      attributes = clone_attributes p attrs;
    });
    updated = none;
    ended = none;
    event = none;
  })

  unfoldable pub updated_record :
      Span → List (Option Attribute) → Runtime p.Timestamp → Record p.Timestamp
  unfolding now
  updated_record s attrs rt = build (record {
    emitted_at = some (now rt);
    started = none;
    updated = some (record {
      trace_id = some s.trace_id;
      span_id = some s.span_id;
      attributes = clone_attributes p attrs;
    });
    ended = none;
    event = none;
  })

  unfoldable pub event_record :
      Span → String → Time → EventConfig → Runtime p.Timestamp → Record p.Timestamp
  unfolding now severity_or_nil
  event_record s name at cfg rt = build (record {
    emitted_at = some (now rt);
    started = none;
    updated = none;
    ended = none;
    event = some (record {
      trace_id = some s.trace_id;
      span_id = some s.span_id;
      name = some name;
      event_at = some (p.new_timestamp at);
      attributes = clone_attributes p cfg.attrs;
      severity = severity_or_nil cfg.severity;
    });
  })

  unfoldable pub ended_record :
      Span → TerminalType → String → Runtime p.Timestamp → Record p.Timestamp
  unfolding now tick string_or_nil
  ended_record s type message rt = build (record {
    emitted_at = some (now rt);
    started = none;
    updated = none;
    ended = some (record {
      trace_id = some s.trace_id;
      span_id = some s.span_id;
      ended_at = some (now (tick rt));
      terminal_type = some type;
      error_message = string_or_nil message;
    });
    event = none;
  })
