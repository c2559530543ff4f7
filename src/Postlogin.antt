-- ===== src/Postlogin.antt =====
-- postlogin.c: the commands of a session that is logged in.
pub mod Paths
pub mod Data
pub mod Files
pub mod Simple
pub mod Transfer
pub mod Site
pub mod Dispatch
pub mod Tests
