-- ===== src/Tests.antt =====
-- Tests of the definitions, and the theorems at concrete inputs.
mod Data
mod Exchange
mod Race
mod Tables
mod Windows
mod Streams
mod Screens
mod Terminal
mod Calls
mod Connection
mod Config
mod Program
mod Sending
mod Login
mod Threads
