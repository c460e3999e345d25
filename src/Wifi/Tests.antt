-- ===== src/Wifi/Tests.antt =====
-- Connections and scans.
use c_utilities.Common.{ℕ, ◌≤◌, ◌≡◌, refl, none, if◌then◌else◌, ltb}
use c_utilities.Common.Int.{pos}
use c_utilities.Common.Run.{done}
use c_utilities.Wifi.{WlStatus, wl_connected, wl_other, Scan, scan_state_idle, connect_with_ap}
use c_utilities.Wifi.Laws.{Outcome, Waited, connect_with_ap_total}

-- The router answers after three seconds.
abbrev slow : ℕ → WlStatus × WlStatus × WlStatus
slow t =
    if ltb t 3 then (wl_other, wl_other, wl_other) else (wl_connected, wl_connected, wl_connected)

connect_slow : connect_with_ap slow ≡ done (0, 3)
unfolding connect_with_ap
connect_slow = refl

connect_with_ap_total_example :
    (r k : ℕ) × (connect_with_ap slow ≡ done (r, k)) × (k ≤ 30) × Outcome slow k r × Waited slow 0 k
connect_with_ap_total_example = connect_with_ap_total slow

abbrev idle : Scan
idle = record { scan_state = scan_state_idle; scan_ap_count = pos 0; ap_scan_list = none }
