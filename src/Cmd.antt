-- ===== src/Cmd.antt =====
-- cmd/scorpion: the command that starts the program. Its flags are cobra's.
mod Tests
pub mod Start
pub mod Root
