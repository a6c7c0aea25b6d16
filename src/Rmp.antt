-- ===== src/Rmp.antt =====
-- The reliable multicast protocol: class CRmpSock of libcomm_net/src/network/sn_socket_impl.h and
-- sn_socket_impl.cpp, its packets, its receiving half and its sending half.
pub mod Packet
pub mod Receiver
pub mod Sender
pub mod System
pub mod Endpoint
