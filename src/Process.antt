-- ===== src/Process.antt =====
-- src/userprog/process.c: the arguments of a program, its segments, and processes that wait for each
-- other.
pub mod Arguments
pub mod Parse
pub mod Pushes
pub mod Stack
pub mod Load
pub mod Segments
pub mod Family
pub mod Places
pub mod Reaping
pub mod Outcome
pub mod Unstarted
mod Tests
