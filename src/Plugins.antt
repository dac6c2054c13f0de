-- ===== src/Plugins.antt =====
-- src/hpc_gui/plugins: which plugins the program takes.
pub mod Version
pub mod Compat
pub mod Active
pub mod Conjunction
pub mod Bounds
pub mod Wildcards
mod Tests
