-- ===== src/Shell.antt =====
-- shell/: the game of guessing a position on the board, and its players.
pub mod Io
pub mod GameMaker
pub mod Players
pub mod Tournament
