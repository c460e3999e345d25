-- ===== src/TimerFw/Calls.antt =====
-- The main context's calls of the timer framework, one after the other.
use c_utilities.Common.{
  ℕ, ◌^◌, ◌<◌, ◌≡◌, refl, ap, true, Option, arith, leb, ltb, Bool-cases, inl, inr,
}
use c_utilities.Common.Int.{ℤ}
use c_utilities.Common.Run.{Run, done, ◌>>=◌}
use c_utilities.ErrorTypes.{ErrorType, code}
use c_utilities.TimerFw.{
  TimerType, Timer, TimerFw, start, stop, pause, resume, update_interval, destroy, start_block,
  stop_block, pause_block, resume_block, destroy_found,
}
use c_utilities.TimerFw.Create.{create}
use c_utilities.TimerFw.Create.Laws.{create_lem, create_refused}
use c_utilities.TimerFw.Invariant.{
  IsTimer, IsValid, validate_total, operate-IsValid, start_block-IsTimer, stop_block-IsTimer,
  pause_block-IsTimer, resume_block-IsTimer, update_block-IsTimer, destroy_found-IsValid,
}

pub data Call (Cb : Type 0) : Type 0 where
  creates : TimerType → ℕ → ℕ → Option Cb → ℕ → Call Cb
  starts stops pauses resumes destroys : ℤ → Call Cb
  updates : ℤ → ℕ → Call Cb

module _ {Cb : Type 0} where
  -- The arguments of a call that are UInt32_t.
  abbrev pub IsWord : Call Cb → Type 0
  IsWord (creates type ms repeat cb arg) = ms < 2 ^ 32
  IsWord (updates id ms) = ms < 2 ^ 32
  IsWord _ = Unit

  abbrev coded : ErrorType × TimerFw Cb → ℤ × TimerFw Cb
  coded r = (code r.0, r.1)

  -- A call, with the number that it returns, where memory is given.
  pub perform : Call Cb → TimerFw Cb → Run (ℤ × TimerFw Cb)
  perform (creates type ms repeat cb arg) fw = create true type ms repeat cb arg fw
  perform (starts id) fw = start id fw >>= λ r. done (coded r)
  perform (stops id) fw = stop id fw >>= λ r. done (coded r)
  perform (pauses id) fw = pause id fw >>= λ r. done (coded r)
  perform (resumes id) fw = resume id fw >>= λ r. done (coded r)
  perform (destroys id) fw = destroy id fw >>= λ r. done (coded r)
  perform (updates id ms) fw = update_interval id ms fw >>= λ r. done (coded r)

  -- A run that ends in a valid framework.
  abbrev pub EndsValid {ℓ} : {A : Type ℓ} → Run (A × TimerFw Cb) → Type ℓ
  EndsValid {A = A} m = (r : A × TimerFw Cb) × (m ≡ done r) × IsValid r.1

  coded-EndsValid :
      (m : Run (ErrorType × TimerFw Cb)) → EndsValid m → EndsValid (m >>= λ r. done (coded r))
  coded-EndsValid m (r, run, v) = (coded r, ap (λ n. n >>= λ x. done (coded x)) run, v)

  operated :
      (f : Timer Cb → ErrorType × Timer Cb)
      → ((t : Timer Cb) → IsTimer t → IsTimer (f t).1)
      → (t : Timer Cb) → IsTimer t
      → (r : ErrorType × Timer Cb) × (◌≡◌ {A = Run (ErrorType × Timer Cb)} (done (f t)) (done r))
        × IsTimer r.1
  operated f keeps t h = (f t, refl, keeps t h)

  pub create-EndsValid :
      (type : TimerType) (ms repeat : ℕ) (cb : Option Cb) (arg : ℕ) (fw : TimerFw Cb)
      → ms < 2 ^ 32
      → IsValid fw
      → EndsValid (create true type ms repeat cb arg fw)
  create-EndsValid type ms repeat cb arg fw w v =
      elim (Bool-cases (leb fw.max_timers fw.timer_count)) [
        | inl full ↦ (_, create_refused type ms repeat cb arg true fw (inl (ground arith)), v)
        | inr room ↦ elim (Bool-cases (ltb ms fw.tick_ms)) [
          | inl short ↦ (
            _,
            create_refused type ms repeat cb arg true fw (inr (ground arith, ground arith)),
            v,
          )
          | inr long ↦
              let (i, f, run, w) =
                create_lem type ms repeat cb arg fw v (ground arith) (ground arith) w in
              (_, run, w)
        ]
      ]

  -- timer_c_Start and timerUpdateInterval, as other components call them.
  pub start_total :
      (id : ℤ) (fw : TimerFw Cb)
      → IsValid fw
      → (r : ErrorType × TimerFw Cb) × (start id fw ≡ done r) × IsValid r.1
  unfolding start
  start_total id fw v = operate-IsValid _ fw id (operated start_block start_block-IsTimer) v

  pub update_interval_total :
      (id : ℤ) (ms : ℕ) (fw : TimerFw Cb)
      → ms < 2 ^ 32
      → IsValid fw
      → (r : ErrorType × TimerFw Cb) × (update_interval id ms fw ≡ done r) × IsValid r.1
  unfolding update_interval
  update_interval_total id ms fw w v =
      operate-IsValid _ fw id (λ t. update_block-IsTimer fw.tick_ms ms t v.tick_pos w) v

  -- No call of the timer framework, on a valid framework and with memory for new timers, runs into
  -- undefined behaviour, and every call keeps the invariant.
  pub perform-IsValid :
      (c : Call Cb) (fw : TimerFw Cb) → IsWord c → IsValid fw → EndsValid (perform c fw)
  unfolding perform stop pause resume destroy
  perform-IsValid (creates type ms repeat cb arg) fw w v =
      create-EndsValid type ms repeat cb arg fw w v
  perform-IsValid (starts id) fw w v = coded-EndsValid _ (start_total id fw v)
  perform-IsValid (stops id) fw w v =
      coded-EndsValid _ (operate-IsValid _ fw id (operated stop_block stop_block-IsTimer) v)
  perform-IsValid (pauses id) fw w v =
      coded-EndsValid _ (operate-IsValid _ fw id (operated pause_block pause_block-IsTimer) v)
  perform-IsValid (resumes id) fw w v =
      coded-EndsValid _ (operate-IsValid _ fw id (operated resume_block resume_block-IsTimer) v)
  perform-IsValid (updates id ms) fw w v = coded-EndsValid _ (update_interval_total id ms fw w v)
  perform-IsValid (destroys id) fw w v =
      let (l, run, a) = validate_total fw id v in
      coded-EndsValid _ (
        destroy_found fw l,
        ap (λ m. m >>= λ x. done (destroy_found fw x)) run,
        destroy_found-IsValid fw l v a,
      )
