-- ===== src/Js.antt =====
-- What the source uses of JavaScript's containers: `Map` and `Set` with string keys, which keep the
-- order of insertion, and the stable sort of arrays.
pub mod Map
pub mod Set
pub mod Sort
pub mod Collation
pub mod Text
