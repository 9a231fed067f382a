-- ===== src/Examples.antt =====
-- Concrete flows, and the theorems of the other modules at them.
mod World
mod Raw
mod Files
mod Web
mod Served
mod Watching
mod Setup
mod Day
