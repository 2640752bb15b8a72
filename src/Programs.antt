-- ===== src/Programs.antt =====
-- Programs on top of the library (examples).
pub mod Pongd
pub mod Pong
pub mod Pongspam
pub mod Tcpd
