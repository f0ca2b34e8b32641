-- ===== src/Tuktuk.antt =====
-- kit-plugin-tuktuk-task-scheduler/src/lib: the TukTuk client.
pub mod Compile
pub mod Bitmap
pub mod Seed
pub mod Client
pub mod Monitor
mod Tests
