-- ===== src/Rup.antt =====
-- The connections of libsmart_net/src/smart_net/sn_endpoint_impl.h and sn_endpoint_impl.cpp,
-- namespace nm_rup: endpoints, and the acceptor or connector that an endpoint waits at.
pub mod Socket
pub mod Endpoint
pub mod Acceptor
pub mod Connector
