-- ===== src/State.antt =====
-- Package state of the repository: the span tree, the store that rebuilds it from records, and the
-- timeline of a span.
pub mod Index
pub mod Tree
pub mod Store
pub mod Apply
pub mod Invariant
pub mod History
pub mod Lookup
pub mod Open
pub mod Limit
pub mod Timeline
pub mod Marks
pub mod Samples
mod Tests
