-- ===== src/Wire.antt =====
-- The byte streams between the programs: server/readline_server.cpp and server/writen_server.cpp,
-- whose functions client/wrapsock.cpp repeats.
pub mod Readline
pub mod Writen
