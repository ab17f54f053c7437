-- ===== src/Wire.antt =====
-- src/internal/pgwire: the startup packets and the framed messages of the PostgreSQL protocol.
-- A connection that is read is the list of bytes still to come before end of file.
pub mod Io
pub mod Startup
pub mod Message
