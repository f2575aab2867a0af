-- ===== src/Context.antt =====
-- The context feature: planning jobs and the handlers that move them.
pub mod Json
pub mod Job
pub mod Collection
pub mod Repository
pub mod Ports
pub mod Prompt
pub mod Claimed
pub mod Chunk
pub mod Message
pub mod ResultChunk
pub mod Consumer
pub mod Timeout
pub mod Process
pub mod Submit
pub mod Get
pub mod Cut
pub mod Candidates
pub mod Budget
pub mod Citations
pub mod Traces
mod Tests
