-- ===== src/CmdLine.antt =====
-- The command line: the words that a client sends (Words), the command that they describe (Command),
-- the state machine that reads them (Parser), and the check of its values (Compile).
pub mod Words
pub mod Command
pub mod Parser
pub mod Compile
pub mod Options
pub mod Examples
