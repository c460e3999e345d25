-- ===== src/TcpControl/Device/Commands/Runnable.antt =====
-- The state machine and the store of a device, one step at a time.
use c_utilities.Common.{
  refl, ◌≤◌, ◌≡◌, ap, ◌∙◌, true, some, List, Bytes, same, arith, Bool-cases, inl, inr,
}
use c_utilities.Common.Int.{ℤ}
use c_utilities.Common.Run.{done, ◌>>=◌}
use c_utilities.Platform.{Eeprom}
use c_utilities.PlatformConfig.{CfgElem, PlatformConfig}
use c_utilities.PlatformConfig.Text.{size, IsToken}
use c_utilities.PlatformConfig.Store.Represents.{lookup, insert, Represents, Represents-eeprom}
use c_utilities.PlatformConfig.Store.Refines.{lookup-insert, lookup-insert_other}
use c_utilities.PlatformConfig.Store.Array.{same_sound}
use c_utilities.Configuration.Laws.{get_configuration_lem, set_configuration_fits}
use c_utilities.JumpStateMachine.{
  Key, bl_spd, sm_spd, bl_bfn_t, t_on, bl_aff_t, t_off, d_s, Controller, JumpEvent,
}
use c_utilities.JumpStateMachine.Spec.{moved}
use c_utilities.JumpStateMachine.Cycle.{suits, IsConfigured, IsConsistent, execute_total}
use c_utilities.TcpControl.Device.{TcpDevice, name_of, config_of, found_value, set_value}
use c_utilities.TcpControl.Device.Commands.{execute_state_machine}

-- The store holds `es`, with every key of the state machine and times whose millionfold is an int, and
-- the machine is consistent.
pub record IsRunnable {S Cb : Type 0} (scaled : Bytes → ℤ) (d : TcpDevice S Cb) (es : List CfgElem)
    : Type 0 where
  pub kept : Represents d.store es
  pub consistent : IsConsistent d.controller
  pub configured :
      (k : Key) → (v : Bytes) × (lookup (name_of k) es ≡ some v) × (suits k (scaled v) ≡ true)

module _ {S : Type 0} where
  pub config_of_lem :
      (k : Key) (es : List CfgElem) (c : PlatformConfig S)
      → Represents c es
      → config_of c k ≡ lookup (name_of k) es
  unfolding config_of found_value
  config_of_lem k es c h = ap found_value (get_configuration_lem (name_of k) es c h)

-- A key that has a value in `P` has one after any key is set to a value in `P`.
pub still_there :
    (P : Bytes → Type 0) (j k v w : Bytes) (es : List CfgElem)
    → (same j k ≡ true → P v)
    → lookup j es ≡ some w
    → P w
    → (u : Bytes) × (lookup j (insert k v es) ≡ some u) × P u
still_there P j k v w es new there old = elim (Bool-cases (same j k)) [
  | inl hit ↦
      (v, ap (λ x. lookup x (insert k v es)) (same_sound j k hit) ∙ lookup-insert k v es, new hit)
  | inr miss ↦ (w, lookup-insert_other j k v es miss ∙ there, old)
]

-- The device state is not a time.
pub d_s-suits : (j : Key) (z : ℤ) → same (name_of j) (name_of d_s) ≡ true → suits j z ≡ true
d_s-suits d_s z e = refl
d_s-suits bl_spd z e = refl
d_s-suits sm_spd z e = refl
d_s-suits bl_bfn_t z e = absurd cc
d_s-suits t_on z e = absurd cc
d_s-suits bl_aff_t z e = absurd cc
d_s-suits t_off z e = absurd cc

module _ {S Cb : Type 0} (scaled atoi : Bytes → ℤ) where
  -- executeStateMachine of a runnable device.
  pub execute_state_machine_lem :
      (e : JumpEvent) (d : TcpDevice S Cb) (es : List CfgElem)
      → IsRunnable scaled d es
      → (c : Controller) × (execute_state_machine scaled atoi e d
          ≡ done (record d { controller = c }))
        × IsRunnable scaled (record d { controller = c }) es
        × (c.current_state ≡ moved d.controller.current_state e)
  unfolding execute_state_machine
  execute_state_machine_lem e d es h =
      let set_up : IsConfigured (config_of d.store) scaled = λ k.
        let (v, there, suit) = h.configured k in
        (v, config_of_lem k es d.store h.kept ∙ there, suit) in
      let (c, run, consistent, moved_to) =
        execute_total (config_of d.store) scaled atoi e d.controller set_up h.consistent in
      (
        c,
        ap (λ m. m >>= λ c. done (record d { controller = c })) run,
        record { kept = h.kept; consistent = consistent; configured = h.configured },
        moved_to,
      )

module _ {S Cb : Type 0} (E : Eeprom S) (scaled : Bytes → ℤ) where
  -- setConfiguration of a value that fits.
  pub set_value_lem :
      (k v : Bytes) (d : TcpDevice S Cb) (es : List CfgElem)
      → IsRunnable scaled d es
      → IsToken k
      → IsToken v
      → size (insert k v es) ≤ 500
      → ((j : Key) → same (name_of j) k ≡ true → suits j (scaled v) ≡ true)
      → (c : PlatformConfig S) × (set_value E true k (some v) d ≡ done (record d { store = c }))
        × IsRunnable scaled (record d { store = c }) (insert k v es)
  unfolding set_value
  set_value_lem k v d es h hk hv l new =
      let (c, run, r, w) = set_configuration_fits E k v es d.store h.kept hk hv l in
      (
        c,
        ap (λ m. m >>= λ r. done (record d { store = r.1 })) run,
        record {
          kept = r;
          consistent = h.consistent;
          configured = λ j.
              let (w, there, suit) = h.configured j in
              still_there (λ u. suits j (scaled u) ≡ true) (name_of j) k v w es (new j) there suit;
        },
      )

-- Another state of the EEPROM library does not matter.
pub IsRunnable-eeprom :
    {S Cb : Type 0} {scaled : Bytes → ℤ} {d : TcpDevice S Cb} {es : List CfgElem} {s : S}
    → IsRunnable scaled d es
    → IsRunnable scaled (record d { store = record d.store { eeprom = s } }) es
IsRunnable-eeprom h = record {
  kept = Represents-eeprom h.kept;
  consistent = h.consistent;
  configured = h.configured;
}

pub d_s-IsToken : IsToken (name_of d_s)
d_s-IsToken = record {
  plain = (
    λ e. absurd (omega (arith, e)),
    λ e. absurd (omega (arith, e)),
    omega arith,
    (λ e. absurd (omega (arith, e)), λ e. absurd (omega (arith, e)), omega arith, tt),
  );
  nonempty = λ e. cc;
}
