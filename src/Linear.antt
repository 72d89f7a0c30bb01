-- ===== src/Linear.antt =====
-- src/linear and include/linear.
pub mod Fifo
pub mod Circular
pub mod Array
pub mod Stack
pub mod Queue
pub mod Deque
pub mod RingBuffer
pub mod LinkedList
