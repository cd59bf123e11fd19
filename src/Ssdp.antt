-- ===== src/Ssdp.antt =====
-- src/ssdp/ssdpparser.c: the parser of SSDP messages. A string is the list of its bytes, a NULL
-- pointer is `none`; a function that fills `*Evt` returns the new event behind its return value; and
-- `none` as the whole result is an access that C does not define: a read through NULL, or a copy past
-- the end of a buffer. The argument of a header function is the line behind its first colon.
pub mod Event
pub mod StartLine
pub mod Names
pub mod Headers
pub mod Analyze
pub mod Verdict
pub mod Lines
pub mod Values
mod Tests
