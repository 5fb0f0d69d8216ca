-- ===== src/Protocol.antt =====
-- What the two parties compute together: the client of client_lib.cc and the server of server_lib.cc,
-- over one curve.
pub mod Tags
pub mod Join
pub mod Sum
pub mod Exchange
pub mod Sealed
pub mod IntersectionSum
