-- ===== src/Examples.antt =====
-- Runs of the passes on small programs, and the theorems at them.
mod Programs
mod Passes
mod Parts
mod Native
mod Backends
mod Graph
mod Meaning
