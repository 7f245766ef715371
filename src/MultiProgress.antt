-- ===== src/MultiProgress.antt =====
-- multi_progress/: the buffers, chunk queues and connections of the server.
pub mod Buffer
pub mod Chunk
pub mod Conn
pub mod Server
pub mod Process
