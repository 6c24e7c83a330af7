-- ===== src/Rpc.antt =====
-- rpc.py and its tables: the codec, the calls, the messages and the session with the modem.
pub mod Take
pub mod Pack
pub mod Calls
pub mod CallIds
pub mod UnsolTable
pub mod Tables
pub mod Message
pub mod Format
pub mod Session
pub mod Fcc
pub mod Main
