-- ===== src/Wifi.antt =====
-- esp32MistingController/wifi.ino: access point, connection and scan.
-- The WiFi library is a parameter: what each of its calls answers is an argument.
pub mod Laws
mod Tests
use c_utilities.Common.{
  ℕ, zero, suc, ◌+◌, Bool, true, false, ◌||◌, Option, none, some, List, [], ◌∷◌, ltb, ◌==◌,
  if◌then◌else◌, length, take, replicate, Bytes,
}
use c_utilities.Common.Int.{ℤ, pos, negsuc}
use c_utilities.Common.Run.{Run, done, fault, out_of_fuel, ◌>>=◌}

-- The answers of WiFi.status() that the code tells apart.
pub data WlStatus : Type 0 where
  wl_connected wl_no_ssid_avail wl_connect_failed wl_other : WlStatus

-- ScanState_e
pub data ScanState : Type 0 where
  scan_state_idle scan_state_inprogress scan_state_complete : ScanState

-- gScanState, gScanApCount and gApScanList
pub record Scan : Type 0 where
  pub scan_state : ScanState
  pub scan_ap_count : ℤ
  pub ap_scan_list : Option (List Bytes)

-- apModeSetup and apModeSetupOpen, for what WiFi.softAP answers
pub ap_mode_setup : Bool → ℕ
ap_mode_setup result = if result then 0 else 1

pub is_connected : WlStatus → Bool
is_connected wl_connected = true
is_connected _ = false

-- isConnectedWithRouter
unfoldable pub is_connected_with_router : WlStatus → Bool
unfolding is_connected
is_connected_with_router s = is_connected s

-- The tests for a connection that fails: WiFi.status() is asked again, twice if it has to be.
pub has_failed : WlStatus → WlStatus → ℕ → Bool
has_failed wl_no_ssid_avail again time_count = true
has_failed _ wl_connect_failed time_count = true
has_failed _ _ time_count = 30 == time_count

-- The loop of connectWithAp, for at most `fuel` rounds, with the answers of WiFi.status() in round
-- `time_count`: what it returns, and how often it waited a second.
pub connect_from : (ℕ → WlStatus × WlStatus × WlStatus) → ℕ → ℕ → Run (ℕ × ℕ)
connect_from status zero time_count = out_of_fuel
connect_from status (suc fuel) time_count =
    let rest = connect_from status fuel (time_count + 1) in
    let (first, second, third) = status time_count in
    if is_connected first
    then done (0, time_count)
    else if has_failed second third time_count
    then done (1, time_count)
    else rest

-- connectWithAp
unfoldable pub connect_with_ap : (ℕ → WlStatus × WlStatus × WlStatus) → Run (ℕ × ℕ)
unfolding connect_from is_connected has_failed
connect_with_ap status = connect_from status 31 0

-- detectWifiMode
unfoldable pub detect_wifi_mode : ℕ → ℕ
detect_wifi_mode mode = mode

-- isInApMode: the mode is compared with `ret`, which stays 0
pub is_in_ap_mode : ℕ → Bool
is_in_ap_mode mode = let ret : ℕ = 0 in if ret == 2 then true else false

-- getApDetail: a name is copied with its '\0' into the 40 bytes of an entry.
pub get_ap_detail : Bytes → Run Bytes
get_ap_detail ssid = if ltb (length ssid) 40 then done ssid else fault

-- The loop of initApScan over the names that WiFi.SSID gives.
pub read_names : List Bytes → Run (List Bytes)
unfolding get_ap_detail
read_names [] = done []
read_names (ssid ∷ names) = get_ap_detail ssid >>= λ s. read_names names >>= λ rest. done (s ∷ rest)

-- The memory for the names, and its zeros. The flag is the allocation, needed for a network at least.
pub scanned : Bool → List Bytes → Scan → Run (ℤ × Scan)
unfolding read_names
scanned got [] s = done (
  pos 0,
  record s {
    scan_state = scan_state_complete;
    scan_ap_count = pos 0;
    ap_scan_list = if got then some [] else none;
  },
)
scanned false (n ∷ names) s = fault
scanned true (n ∷ names) s = read_names (n ∷ names) >>= λ xs. done (
  pos (length xs),
  record s {
    scan_state = scan_state_complete;
    scan_ap_count = pos (length xs);
    ap_scan_list = some xs;
  },
)

-- initApScan, for what the scan finds: the names of the networks, or `none` for a negative answer,
-- with which too much memory is asked for and the zeros are written through NULL
pub init_ap_scan : Bool → Option (List Bytes) → Scan → Run (ℤ × Scan)
unfolding scanned
init_ap_scan got found s = elim s.scan_state [
  | scan_state_inprogress ↦ done (negsuc 0, s)
  | _ ↦ elim found [ none ↦ fault | some names ↦ scanned got names s ]
]

-- getApList: the count, and the list put at `apScanList`
pub get_ap_list : Scan → ℤ × Option (Option (List Bytes))
get_ap_list s = elim s.scan_state [
  | scan_state_complete ↦ (s.scan_ap_count, some s.ap_scan_list)
  | _ ↦ (negsuc 0, none)
]
