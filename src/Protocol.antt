-- ===== src/Protocol.antt =====
-- @inkpi/protocol: the wire.
pub mod Framing
pub mod Cbor
pub mod RpcLimits
