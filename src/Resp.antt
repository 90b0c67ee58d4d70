-- ===== src/Resp.antt =====
-- The protocol, zenith/protocol/resp.py. A text is its code points; the UTF-8 codec is a parameter.
pub mod Value
pub mod Serializer
pub mod Parser
pub mod Lines
pub mod Leaves
pub mod Arrays
pub mod RoundTrip
pub mod Partial
pub mod Waiting
pub mod Stream
mod Examples
