-- ===== src/Cli.antt =====
-- src/bin/main.rs: the numbers with suffixes, and the settings that the command line makes. The
-- parsing of the options is clap's, so a command is given by its fields; a text is given by its
-- characters' numbers.
pub mod Suffix
pub mod Commands
pub mod Value
mod Tests
