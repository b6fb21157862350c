-- ===== src/Sync.antt =====
-- source/kernel/sync: the locks that threads sleep on.
pub mod Semaphore
pub mod Mutex
pub mod Rwlock
pub mod Condvar
mod Examples
