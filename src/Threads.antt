-- ===== src/Threads.antt =====
-- src/filters/threads/threads.c: packets processed by several threads, and put in order again.
pub mod Queue
pub mod Reorder
pub mod InOrder
pub mod Choice
pub mod Fifo
mod Tests
