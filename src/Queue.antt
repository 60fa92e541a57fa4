-- ===== src/Queue.antt =====
-- What the queue of `CEventSystem` guarantees: the order of the events, and the clock.
pub mod Order
pub mod Shape
pub mod Clock
