-- ===== src/Queue.antt =====
-- The queues of common/src/limero.h. `Fifo` is what the flows need of a queue: bounded, first in,
-- first out. `Ring` is the `ArrayQueue` of the Arduino build and `Ticket` that of the other
-- builds, which any number of threads use at once.
pub mod Fifo
pub mod Ring
pub mod Ticket
mod Tests
