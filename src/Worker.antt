-- ===== src/Worker.antt =====
-- worker/: the worker, which takes deploy messages from the queue and builds images.
pub mod World
pub mod Store
pub mod Monitor
pub mod Stages
pub mod Keeping
pub mod Process
