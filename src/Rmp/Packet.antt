-- ===== src/Rmp/Packet.antt =====
-- The packets of libcomm_net/src/network/sn_socket_impl.h and the memory block that holds one.
-- The source casts the bytes of a datagram to the struct that the opcode names; here a packet is
-- that struct's fields. EP_DATA, EP_HB, EP_NAK and EP_ACK are the opcodes of sn_socket_impl.cpp.
use smart_net.Base.{ℕ, List, [], length}

pub data Pkg : Type 0 where
  odata : ℕ → List ℕ → Pkg
  hb : ℕ → ℕ → Pkg
  nak : ℕ → ℕ → ℕ → Pkg
  ack : ℕ → ℕ → Pkg
  other : Pkg

-- A datagram: the field ui8SrcId of its header, and its packet.
pub record Datagram : Type 0 where
  pub src_id : ℕ
  pub pkg : Pkg

-- What a CMemBlock shows to the protocol: m_ui32Offset, and the m_ui32Len bytes behind it.
pub record Mem : Type 0 where
  pub offset : ℕ
  pub body : List ℕ

-- NEW_MEM, and what `reset` leaves.
abbrev pub empty_mem : Mem
empty_mem = record { offset = 0; body = [] }

-- sizeof(SRmpHdr) + sizeof(SRmpOdata), both 8 bytes.
abbrev pub odata_hdr_size : ℕ
odata_hdr_size = 16

abbrev pub get_len : Mem → ℕ
get_len m = length m.body
