-- ===== src/TimerFw/Create.antt =====
-- timerFw.cpp: timerCreate.
pub mod Laws
use c_utilities.Common.{
  ℕ, zero, suc, ◌+◌, Bool, Option, none, some, ltb, leb, if◌then◌else◌, get_elem?, set, u8,
}
use c_utilities.Common.Int.{ℤ, pos}
use c_utilities.Common.Run.{Run, done, fault, ◌>>=◌}
use c_utilities.ErrorTypes.{code, e_tmr_max, e_tmr_too_small}
use c_utilities.TimerFw.{init, TimerType, Timer, TimerFw, divided}

module _ {Cb : Type 0} where
  -- The block that timerCreate fills in.
  unfoldable pub new_timer : TimerType → ℕ → ℕ → Option Cb → ℕ → ℕ → Timer Cb
  new_timer type i repeat cb arg ticks = record {
    repeat = repeat;
    timer_id = u8 i;
    cb = cb;
    arg = arg;
    ticks = ticks;
    ticks_remaining = 0;
    expiry_count = 0;
    state = init;
    type = type;
  }

  -- The first free entry is taken. The flag is the allocation of the block.
  occupy : Bool → TimerType → ℕ → ℕ → Option Cb → ℕ → ℕ → TimerFw Cb → Run (ℤ × TimerFw Cb)
  unfolding divided new_timer
  occupy got type ms repeat cb arg i fw =
      if got
      then (divided ms fw.tick_ms >>= λ n. done (
        pos i,
        record fw {
          timer_cb = set fw.timer_cb i (some (new_timer type i repeat cb arg n));
          timer_count = u8 (fw.timer_count + 1);
        },
      ))
      else fault

  -- The loop of timerCreate: `rounds` entries from `i` on are left to look at.
  seek_free : Bool → TimerType → ℕ → ℕ → Option Cb → ℕ → ℕ → ℕ → TimerFw Cb → Run (ℤ × TimerFw Cb)
  seek_free got type ms repeat cb arg zero i fw = done (pos 0, fw)
  seek_free got type ms repeat cb arg (suc rounds) i fw =
      let next = seek_free got type ms repeat cb arg rounds (i + 1) fw in
      elim (get_elem? fw.timer_cb i) [
        | none ↦ fault
        | some none ↦ occupy got type ms repeat cb arg i fw
        | some (some t) ↦ next
      ]

  -- timerCreate
  pub create : Bool → TimerType → ℕ → ℕ → Option Cb → ℕ → TimerFw Cb → Run (ℤ × TimerFw Cb)
  unfolding seek_free
  create got type ms repeat cb arg fw =
      if leb fw.max_timers fw.timer_count
      then done (code e_tmr_max, fw)
      else if ltb ms fw.tick_ms
      then done (code e_tmr_too_small, fw)
      else seek_free got type ms repeat cb arg fw.max_timers 0 fw
