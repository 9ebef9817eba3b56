-- ===== src/Dict.antt =====
-- Go maps with string keys, as association lists. A range over a map goes through the list.
mod Laws
unfoldable pub use Laws.*
