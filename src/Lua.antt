-- ===== src/Lua.antt =====
-- internal/lua: how the scripts are put together, loaded and run.
pub mod Path
pub mod Directive
pub mod Preprocess
pub mod Scripter
