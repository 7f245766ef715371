-- ===== src/MyTimer.antt =====
-- mytimer/: timers kept in a binary min-heap, the list of the expired ones, and the loop.
pub mod TimeVal
pub mod MinHeap
pub mod ActiveList
pub mod Timer
