-- ===== src/Base/Code.antt =====
-- Status codes: int32_t values, and those of libcomm_utils/src/common/err_info.h.
use Prim.Native.Nat.{ℕ, zero, suc, compare, Ordering}
use mathlib.Core.Bool.{Bool, true, false}

-- `negsuc n` is -(n + 1).
pub data ℤ : Type 0 where
  pos : ℕ → ℤ
  negsuc : ℕ → ℤ

-- The test `code < 0`.
abbrev pub is_neg : ℤ → Bool
is_neg (pos n) = false
is_neg (negsuc n) = true

-- The test `CMNERR_SUC == code`.
abbrev pub is_suc : ℤ → Bool
is_suc (pos zero) = true
is_suc (pos (suc n)) = false
is_suc (negsuc n) = false

-- CMNERR_BEGINNING is -10000, and each later code is one more than the code before it.
abbrev pub cmnerr_suc : ℤ
cmnerr_suc = pos 0

abbrev pub cmnerr_common_err : ℤ
cmnerr_common_err = negsuc 9995

abbrev pub cmnerr_fatal_err : ℤ
cmnerr_fatal_err = negsuc 9994

abbrev pub cmnerr_io_err : ℤ
cmnerr_io_err = negsuc 9993

abbrev pub cmnerr_send_pending : ℤ
cmnerr_send_pending = negsuc 9992

abbrev pub cmnerr_recv_pending : ℤ
cmnerr_recv_pending = negsuc 9991

abbrev pub cmnerr_no_data : ℤ
cmnerr_no_data = negsuc 9987

abbrev pub cmnerr_no_space : ℤ
cmnerr_no_space = negsuc 9986

abbrev pub cmnerr_odata_ready : ℤ
cmnerr_odata_ready = negsuc 9983

-- The test `CMNERR_ODATA_READY == code`.
abbrev pub is_odata_ready : ℤ → Bool
is_odata_ready (pos n) = false
is_odata_ready (negsuc n) = elim (compare n 9983) [ Ordering.eq ↦ true | _ ↦ false ]

-- The test `CMNERR_IO_ERR == code`.
abbrev pub is_io_err : ℤ → Bool
is_io_err (pos n) = false
is_io_err (negsuc n) = elim (compare n 9993) [ Ordering.eq ↦ true | _ ↦ false ]

-- The test `CMNERR_SEND_PENDING == code`.
abbrev pub is_send_pending : ℤ → Bool
is_send_pending (pos n) = false
is_send_pending (negsuc n) = elim (compare n 9992) [ Ordering.eq ↦ true | _ ↦ false ]

-- The test `CMNERR_RECV_PENDING == code`.
abbrev pub is_recv_pending : ℤ → Bool
is_recv_pending (pos n) = false
is_recv_pending (negsuc n) = elim (compare n 9991) [ Ordering.eq ↦ true | _ ↦ false ]
