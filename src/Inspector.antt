-- ===== src/Inspector.antt =====
-- inspector.go, inspector_list.go, inspector_admin.go: what an operator reads and does.
pub mod Admin
pub mod Pause
pub mod Counts
pub mod Listing
