-- ===== src/Timer.antt =====
-- src/timer/frontend/timer.c and src/timer/backends/soft/swtimer.c: the player's clock.
pub mod Clock
pub mod Waiting
pub mod Soft
mod Tests
