-- ===== src/MainProgram/Timers.antt =====
-- esp32MistingController.ino: the timers of the application, on the timers of timerFw.cpp.
-- What the framework calls callbacks is a parameter, since the mist cycle has callbacks too; `named`
-- gives those of the application.
pub mod Laws
pub mod Events
mod Tests
use c_utilities.Common.{ℕ, ◌*◌, Bool, none, some}
use c_utilities.Common.Int.{ℤ}
use c_utilities.Common.Run.{Run, done, ◌>>=◌}
use c_utilities.TimerFw.{low_prio, TimerFw, start}
use c_utilities.TimerFw.Create.{create}
use c_utilities.MainProgram.{
  AppEvent, evt_wifi_status, evt_send_device_status, evt_device_monitor_status, evt_flush_buffer,
  App, raise,
}

-- The timers whose ids are gWifiStatusTimerId, gSendDeviceStatusTimerId, gDeviceMonitorTimerId and
-- gFlushBufferTimerId.
pub data AppTimer : Type 0 where
  wifi_status_timer send_device_status_timer device_monitor_timer flush_buffer_timer : AppTimer

-- WIFI_PERIODIC_CHECK_TIME, SEND_DEV_STATUS_TIME, SEND_DEV_MONITOR_TIME and FLUSH_BUFFER_TIME, in
-- seconds
abbrev pub period_of : AppTimer → ℕ
period_of wifi_status_timer = 60
period_of send_device_status_timer = 5
period_of device_monitor_timer = 4
period_of flush_buffer_timer = 7

-- The framework, and the ids.
pub record AppTimers (Cb : Type 0) : Type 0 where
  pub timers : TimerFw Cb
  pub wifi_status_timer_id : ℤ
  pub send_device_status_timer_id : ℤ
  pub device_monitor_timer_id : ℤ
  pub flush_buffer_timer_id : ℤ

module _ {Cb : Type 0} where
  abbrev pub id_of : AppTimer → AppTimers Cb → ℤ
  id_of wifi_status_timer a = a.wifi_status_timer_id
  id_of send_device_status_timer a = a.send_device_status_timer_id
  id_of device_monitor_timer a = a.device_monitor_timer_id
  id_of flush_buffer_timer a = a.flush_buffer_timer_id

  abbrev pub keep_timer_id : AppTimer → ℤ → AppTimers Cb → AppTimers Cb
  keep_timer_id wifi_status_timer i a = record a { wifi_status_timer_id = i }
  keep_timer_id send_device_status_timer i a = record a { send_device_status_timer_id = i }
  keep_timer_id device_monitor_timer i a = record a { device_monitor_timer_id = i }
  keep_timer_id flush_buffer_timer i a = record a { flush_buffer_timer_id = i }

module _ {Cb : Type 0} (named : AppTimer → Cb) where
  -- timerCreate and timer_c_Start, whose errors are printed. The flag is the allocation.
  pub create_and_start : Bool → AppTimer → AppTimers Cb → Run (AppTimers Cb)
  create_and_start got t a =
      create got low_prio (period_of t * 1000) 1 (some (named t)) 0 a.timers >>= λ r.
      start r.0 r.1 >>= λ q. done (keep_timer_id t r.0 (record a { timers = q.1 }))

  -- createApplicationTimers
  pub create_application_timers : Bool → AppTimers Cb → Run (AppTimers Cb)
  unfolding create_and_start
  create_application_timers got a =
      create_and_start got wifi_status_timer a
      >>= create_and_start got send_device_status_timer
      >>= create_and_start got device_monitor_timer
      >>= create_and_start got flush_buffer_timer

abbrev pub raised_by : AppTimer → AppEvent
raised_by wifi_status_timer = evt_wifi_status
raised_by send_device_status_timer = evt_send_device_status
raised_by device_monitor_timer = evt_device_monitor_status
raised_by flush_buffer_timer = evt_flush_buffer

-- onWifiStatusTimerExpiry, onSendDeviceStatusTimerExpiry, onDeviceMonitorTimerExpiry and
-- onFlushBufferTimerExpiry
pub on_timer_expiry : {S : Type 0} → AppTimer → App S → Run (App S)
on_timer_expiry t a = raise (raised_by t) a
