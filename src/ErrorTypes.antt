-- ===== src/ErrorTypes.antt =====
-- errorTypes.h: the error enumeration that every framework returns, and its numeric values.
use c_utilities.Common.Int.{ℤ, neg}

pub data ErrorType : Type 0 where
  e_max e_nomem e_null e_bug e_internal : ErrorType
  e_tmr_ready e_tmr_not_ready e_tmr_not_exist e_tmr_out_of_bound e_tmr_too_small : ErrorType
  e_tmr_running e_tmr_paused e_tmr_not_paused e_tmr_not_running e_tmr_max : ErrorType
  e_evt_exist e_evt_out_of_bounds e_evt_not_exist e_evt_queue_full : ErrorType
  e_evt_not_ready e_evt_ready : ErrorType
  e_queue_size_restriction e_queue_invalid e_queue_full e_queue_empty : ErrorType
  e_success : ErrorType

-- The value of each enumerator, as the compiler numbers them.
abbrev pub code : ErrorType → ℤ
code e_max = neg 5000
code e_nomem = neg 4999
code e_null = neg 4998
code e_bug = neg 4997
code e_internal = neg 4996
code e_tmr_ready = neg 4500
code e_tmr_not_ready = neg 4499
code e_tmr_not_exist = neg 4498
code e_tmr_out_of_bound = neg 4497
code e_tmr_too_small = neg 4496
code e_tmr_running = neg 4495
code e_tmr_paused = neg 4494
code e_tmr_not_paused = neg 4493
code e_tmr_not_running = neg 4492
code e_tmr_max = neg 4491
code e_evt_exist = neg 4000
code e_evt_out_of_bounds = neg 3999
code e_evt_not_exist = neg 3998
code e_evt_queue_full = neg 3997
code e_evt_not_ready = neg 3996
code e_evt_ready = neg 3995
code e_queue_size_restriction = neg 3500
code e_queue_invalid = neg 3499
code e_queue_full = neg 3498
code e_queue_empty = neg 3497
code e_success = neg 0
