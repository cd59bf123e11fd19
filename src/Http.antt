-- ===== src/Http.antt =====
-- src/genlib/http_client/http_client.c: the parsing of HTTP messages and URIs. Behind a pointer and the
-- number of bytes that may be read from it stands one list, of those bytes; a `token` is the bytes
-- that it covers. `char` is signed, so a byte from 128 on is below 0.
pub mod Text
pub mod Message
pub mod Uri
pub mod Lines
pub mod RoundTrip
pub mod Absolute
pub mod Bounded
pub mod Request
pub mod RequestTrip
mod Tests
