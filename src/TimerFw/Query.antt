-- ===== src/TimerFw/Query.antt =====
-- timerFw.cpp: the functions that read a timer.
pub mod Laws
use c_utilities.Common.{◌*◌, ◌==◌, if◌then◌else◌, u32}
use c_utilities.Common.Int.{ℤ, pos, of_u32}
use c_utilities.Common.Run.{Run, done, ◌>>=◌}
use c_utilities.ErrorTypes.{code, e_tmr_not_running}
use c_utilities.TimerFw.{is_running, type_value, Timer, TimerFw, Lookup, refused, found, validate}

module _ {Cb : Type 0} where
  -- What the accessors below return: the error's value, or what they read from the block.
  read_found : (Timer Cb → ℤ) → Lookup Cb → ℤ
  read_found g (refused e) = code e
  read_found g (found i t) = g t

  query : (Timer Cb → ℤ) → ℤ → TimerFw Cb → Run ℤ
  unfolding read_found
  query g id fw = validate id fw >>= λ l. done (read_found g l)

  -- timerInterval
  pub interval : ℤ → TimerFw Cb → Run ℤ
  unfolding query
  interval id fw = query (λ t. of_u32 (u32 (t.ticks * fw.tick_ms))) id fw

  -- timerRemainingMs
  pub remaining_ms : ℤ → TimerFw Cb → Run ℤ
  unfolding query
  remaining_ms id fw =
      query
        (λ t.
          if is_running t.state
          then of_u32 (u32 (t.ticks_remaining * fw.tick_ms))
          else code e_tmr_not_running)
        id fw

  -- timerExpiryCount
  pub expiry_count_of : ℤ → TimerFw Cb → Run ℤ
  unfolding query
  expiry_count_of = query (λ t. of_u32 t.expiry_count)

  -- timerType
  pub type_of : ℤ → TimerFw Cb → Run ℤ
  unfolding query
  type_of = query (λ t. pos (type_value t.type))

  -- timerRunning
  pub is_timer_running : ℤ → TimerFw Cb → Run ℤ
  unfolding query
  is_timer_running = query (λ t. if is_running t.state then pos 1 else pos 0)

  -- timerSingleshot: the type is compared with TIMER_SINGLESHOT, which is False, 0.
  pub is_singleshot : ℤ → TimerFw Cb → Run ℤ
  unfolding query
  is_singleshot = query (λ t. if type_value t.type == 0 then pos 1 else pos 0)
