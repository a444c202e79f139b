-- ===== src/Command.antt =====
-- cmd: the command.
pub mod Includes
