-- ===== src/Main.antt =====
-- cmd/lbsync/main.go: the lists and resources of the command line, the cluster configuration, and the
-- start of the modules.
--
-- The texts are split and trimmed as package strings does it.
pub mod Strings
pub mod ParseList
pub mod Resources
pub mod ClusterConfig
pub mod Startup
pub mod Load
pub mod Run
pub mod Process
