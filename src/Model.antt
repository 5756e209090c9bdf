-- ===== src/Model.antt =====
-- src/model: the stores that the runtime threads share.
pub mod Frame
pub mod Scene
pub mod Viewer
