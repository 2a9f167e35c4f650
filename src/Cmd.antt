-- ===== src/Cmd.antt =====
-- cmd/localapp: the command line.
pub mod Forwarder
pub mod Tail
pub mod Follow
pub mod Args
pub mod Install
pub mod Flags
pub mod Redirect
pub mod Remove
