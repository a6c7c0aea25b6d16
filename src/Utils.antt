-- ===== src/Utils.antt =====
-- libcomm_utils/src/utils: the counted pointers.
pub mod SmartPtr
