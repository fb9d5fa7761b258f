-- ===== src/Link/Status.antt =====
-- include/wirelink/types.h: the status codes that every function returns.
use mathlib.Core.Bool.{Bool, true, false}

pub data Status : Type 0 where
  ok : Status
  invalid_arg not_initialized not_supported : Status
  no_mem buf_too_small no_space no_data : Status
  bad_frame cobs_decode crc frame_too_long : Status
  busy timeout tx_failed invalid_state would_block queue_full not_found payload_too_long : Status
  io cancelled protocol_version reentrant id_exhausted : Status
  corrupt_payload : Status

-- `ret == WL_OK`
abbrev pub is_ok : Status → Bool
is_ok ok = true
is_ok e = false
