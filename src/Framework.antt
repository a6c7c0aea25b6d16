-- ===== src/Framework.antt =====
-- libsmart_net/src/framework: the engine, its tasks, and what they run.
pub mod Caches
pub mod IoObj
pub mod Epoll
pub mod Timer
pub mod Task
pub mod Engine
