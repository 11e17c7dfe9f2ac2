-- ===== src/Events.antt =====
-- src/event/event.c: the types of events, by name and by number.
pub mod Registry
pub mod Valid
pub mod Names
pub mod Loop
mod Tests
