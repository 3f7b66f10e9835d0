-- ===== src/Threads.antt =====
-- Threads, scheduling and synchronization (src/threads).
pub mod Kernel
pub mod Invariant
pub mod Switch
pub mod Wake
pub mod Fair
pub mod Synch
pub mod Create
pub mod Waiting
pub mod Semaphores
pub mod Wakeup
pub mod System
pub mod Mutex
pub mod Locks
pub mod Conditions
pub mod Sample
mod Tests
