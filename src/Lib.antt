-- ===== src/Lib.antt =====
-- sap, a span-first live monitoring library for Go.
--
-- A program starts spans on a hub and changes them; each step is published as a protobuf record to the
-- hub's subscribers. An HTTP handler sends the records of a subscriber as server-sent events, and a
-- client reads them. A viewer applies the records to a store, which rebuilds the tree of spans, and
-- draws the tree.
--
-- The files and the code that they are about:
--   Base       shared helpers: numbers, lists, maps keyed by texts, case splits; of the standard
--              library Base/Decimal (strconv, Duration.String), Base/Time, Base/Lines (bufio.Scanner)
--              and Base/Http (http.ResponseWriter)
--   Message    gen/sap/v1/record.pb.go: Record and its messages, their accessors, WhichKind, the
--              builder of Record; Message/Proto is what the code calls of the protobuf runtime
--   Attr       attr.go: the constructors of attributes, cloneAttributes, dedupeStrings
--   Hub        hub.go: NewHub, Subscribe and its cancel function, Publish, Close; Hub/Concurrent calls
--              of Publish that are under way at once
--   Span       sap.go: contexts and event options; Span/Records the records that it builds;
--              Span/Methods Start, SetAttributes, AddEvent, Complete, Error; Span/History runs of calls,
--              Span/Viewed a start whose record is applied to a store
--   State      state/state.go and state/timeline.go: State/Tree SpanState and the walks over it,
--              State/Store the store and its operations, State/Apply the handlers of records,
--              State/History runs of calls, State/Timeline the timeline of a span
--   Sse        transport/sapsse/client.go and event.go: Stream, streamOnce; Sse/Handler is the handler
--              of transport/sapsse/sse.go, Sse/Frames what it writes, Sse/Delivery a hub with both
--   Tui        viewer/sap-tui/tui.go: Update of the model and the methods that it calls,
--              Tui/Drawn what they draw; Tui/Pump the goroutine of run that passes records on, and
--              newModel; Tui/Render and Tui/Cache viewer/sap-tui/render.go and codeLanguage of highlight.go
--   Web        viewer/sap-web: Web/Server the state, the patches and the snapshots of server.go,
--              Web/Session its methods, Web/Stream its HTTP handlers, Web/History runs of calls,
--              Web/Drain what a client reads after them;
--              Web/View, Web/Keys and Web/Labels render.go; Web/EventSource is what a browser reads
--
-- How the state corresponds:
--   - A *SpanState is null or an object with its address and its children. Every object is owned by
--     one Children slice or by roots, so the tree is the heap; byID maps an ID to an address, and a
--     write through byID is a write at that address. Store has the source's fields and the address
--     that the next object gets.
--   - A span of the program (Span) is an object on a heap, since contexts and callers share it. A hub
--     is an address there; Publish is recorded in order in `published`. Hub has the channels of one
--     hub, each with its capacity, its queue and whether it is closed; an operation that would panic
--     in Go returns none.
--   - Methods hold a mutex to their end and are single steps, so histories are lists of calls. Hub's
--     Publish holds a read lock only; in Hub/Concurrent its sends are single steps, between which those
--     of other calls of Publish and receives may stand.
--   - A nil pointer is none, or null for a *SpanState. A nil slice and an empty one are the same list.
--   - time.Time is a signed number of nanoseconds since year 1. The range of int64 durations and of
--     timestamps is not modelled; neither is the location of a time.
--   - Maps are functions from texts to options. A map that is iterated over (subs of a hub) is a list,
--     whose order stands for the order of the iteration.
--   - Integers that only count (capacities, attempts, depths) are natural numbers without a bound. The
--     argument of Subscribe and the limit of LimitRoots are signed.
--
--   - The web viewer's server has the channels of its subscribers like a hub. Its methods hold the
--     mutex and take the time as an argument; the goroutine of start is the list of the calls that it
--     makes. A handler's select is the list of the cases that it selects.
--   - A response writer is what it has been told (headers, status, writes, flushes) and the number of
--     writes that its connection still takes.
--   - The goroutine of run in the terminal viewer and the calls of Update are one list of turns; a turn
--     of the goroutine ends where the other side can change the flag of the pause. The program takes
--     every message that p.Send hands over.
--
-- A loop of the source over a finite list or tree is structural recursion. renderSpan recurs on the
-- children in the order of a timeline, on fuel that a bound on the height of the tree makes enough; the
-- digits of a number are made with fuel above their number. Stream of the client and the handlers of
-- streams loop for ever; they run over a list of turns, what the other side and the context do in each.
--
-- Given from outside, as arguments: the protobuf runtime (Message/Proto, with its documented laws), the
-- identifiers that newID reads from crypto/rand, the clock, protojson, the widgets of bubbles
-- (Tui.Widgets), the styles of lipgloss with the highlighting of code (Tui.Render.Pen), and the
-- components that templ generates from components.templ (Web.Server.Templates). The standard library's
-- stable sort is an insertion sort.
--
-- Not modelled: the wire format and reflection of messages, the text of the components of templ, the
-- highlighting by chroma and the two caches of its results, the stylesheet, the programs' flags and
-- start-up (main.go, the test for a terminal in run), and the example.
pub mod Base
pub mod Message
pub mod Attr
pub mod Hub
pub mod Span
pub mod State
pub mod Sse
pub mod Tui
pub mod Web
