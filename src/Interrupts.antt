-- ===== src/Interrupts.antt =====
-- src/i8259a.c, src/ints.c and src/time.c with their headers: the interrupt controllers, the
-- interrupt gates and the handlers, and the timer. The ports are the list of the writes to them, the
-- last one first.
pub mod Pic
pub mod Handlers
pub mod Gates
pub mod Timer
mod Tests
