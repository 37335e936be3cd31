-- ===== src/Gdb.antt =====
-- The debugger server of src/gdb_rsp.cc and src/gdb_rsp.hh: the texts of the remote protocol, its packets, the
-- commands, and the loops of a session. The sockets of src/util/tcp_server.cc are the bytes that are still to
-- arrive and the messages that have been sent; the log is left out.
pub mod Text
pub mod Pattern
pub mod Packet
pub mod Command
pub mod Target
pub mod Session
mod Tests
