-- ===== src/PlatformTimer.antt =====
-- platformTimer.cpp: the hardware timer behind the timer framework, for the three platforms.
use c_utilities.Common.{
  ℕ, ◌*◌, ◌/◌, ◌%◌, Option, some, ltb, if◌then◌else◌, u32, ◌<◌, ◌^◌, ◌+◌, ◌≡◌, arith,
}
use c_utilities.ErrorTypes.{ErrorType, e_max, e_success}

-- gExpCb, and what the system timer has been told: to call `handler` every `period` units.
pub record PlatformTimer (Cb : Type 0) : Type 0 where
  pub exp_cb : Option Cb
  pub period : Option ℕ

-- The members of `struct itimerval` that the Linux code sets, for value and interval alike.
pub record Itimer : Type 0 where
  pub tv_sec : ℕ
  pub tv_usec : ℕ

module _ {Cb : Type 0} where
  -- platformTimerStart on Arduino: Ticker::attach_ms
  unfoldable pub start : ℕ → Cb → PlatformTimer Cb → ErrorType × PlatformTimer Cb
  start ms cb p = (e_success, record { exp_cb = some cb; period = some ms })

  -- platformTimerStart on NRF. `ticks` stands for APP_TIMER_TICKS of the vendor's header.
  pub start_nrf : (ℕ → ℕ) → ℕ → Cb → PlatformTimer Cb → ErrorType × PlatformTimer Cb
  start_nrf ticks ms cb p =
      if ltb ms 5
      then (e_max, record p { exp_cb = some cb })
      else (e_success, record { exp_cb = some cb; period = some (ticks ms) })

  -- handler: what the system timer calls. The result is the callback to run.
  unfoldable pub handler : PlatformTimer Cb → Option Cb
  handler p = p.exp_cb

-- The interval that platformTimerStart sets on Linux.
pub itimer : ℕ → Itimer
itimer ms = record { tv_sec = ms / 1000; tv_usec = u32 (ms % 1000 * 1000) }

-- The interval set on Linux is the one asked for, with less than a second of microseconds.
pub itimer_lem :
    (ms : ℕ)
    → ms < 2 ^ 32
    → ((itimer ms).tv_sec * 1000000 + (itimer ms).tv_usec ≡ ms * 1000)
      × ((itimer ms).tv_usec < 1000000)
unfolding itimer
itimer_lem ms w = (omega arith, omega arith)
