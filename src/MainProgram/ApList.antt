-- ===== src/MainProgram/ApList.antt =====
-- esp32MistingController.ino: evtGetApList, the names of the networks around.
-- What the scan finds is an argument; the memory for wifiNetworkList is taken to be given.
use c_utilities.Common.{
  ℕ, zero, suc, ◌%◌, ◌^◌, ◌≤◌, ◌<◌, ◌≡◌, ◌≢◌, refl, ap, ◌∙◌, Bool, true, false, Option, none, some,
  List, [], ltb, if◌then◌else◌, length, take, Bytes, arith,
}
use c_utilities.Common.Int.{ℤ, pos, negsuc, to_u32}
use c_utilities.Common.Run.{Run, done, fault, ◌>>=◌}
use c_utilities.Wifi.{Scan, scan_state_inprogress, init_ap_scan, get_ap_list}
use c_utilities.Wifi.Laws.{AllShort, get_ap_list-init_ap_scan}
use c_utilities.MainProgram.{App, ap_list, act}

-- The loop over `n` entries of the list that getApList has put at wifiNetworkList. Nothing stands there
-- before.
pub listed : ℕ → Option (Option (List Bytes)) → Run (List Bytes)
listed zero m = done []
listed (suc n) none = fault
listed (suc n) (some none) = fault
listed (suc n) (some (some xs)) = if ltb (length xs) (suc n) then fault else done (take (suc n) xs)

listed_lem :
    (n : ℕ) (xs : List Bytes) → n ≤ length xs → listed n (some (some xs)) ≡ done (take n xs)
unfolding listed
listed_lem zero xs l = refl
listed_lem (suc n) xs l =
    let enough : ltb (length xs) (suc n) ≡ false = ground (arith, l) in
    ap (λ b. if b then fault else done (take (suc n) xs)) enough

module _ {S : Type 0} where
  -- The answer, once the scan has ended. networkCount is an unsigned char, hence never negative.
  pub send_ap_list : ℤ × Scan → App S → Run (Scan × App S)
  unfolding listed
  send_ap_list (negsuc n, s) a = done (s, a)
  send_ap_list (pos n, s) a =
      let l = get_ap_list s in
      let network_count = to_u32 l.0 % 256 in
      listed network_count l.1 >>= λ names. done (s, act (ap_list network_count names) a)

  -- evtGetApList
  pub evt_get_ap_list : Bool → Option (List Bytes) → Scan → App S → Run (Scan × App S)
  unfolding send_ap_list
  evt_get_ap_list got found s a = init_ap_scan got found s >>= λ r. send_ap_list r a

  -- evtGetApList, unless a scan is in progress, given memory and names of at most 39 bytes, sends the
  -- names found, in their order, with their number; of 256 networks or more, only the first, as many as
  -- the number modulo 256.
  pub evt_get_ap_list_lem :
      (names : List Bytes) (s : Scan) (a : App S)
      → s.scan_state ≢ scan_state_inprogress
      → AllShort names
      → length names < 2 ^ 32
      → (s1 : Scan) × (evt_get_ap_list true (some names) s a
          ≡ done (s1, act (ap_list (length names % 256) (take (length names % 256) names)) a))
  unfolding evt_get_ap_list
  evt_get_ap_list_lem names s a idle short few =
      let (s1, run, out) = get_ap_list-init_ap_scan names s idle short in
      let n = length names % 256 in
      let sent : ℕ → Run (List Bytes) → Run (Scan × App S) =
        λ k m. m >>= λ xs. done (s1, act (ap_list k xs) a) in
      let count : to_u32 (pos (length names)) % 256 ≡ n = omega (arith, few) in
      (
        s1,
        ap (λ m. m >>= λ r. send_ap_list r a) run
            ∙ ap (λ l. sent (to_u32 l.0 % 256) (listed (to_u32 l.0 % 256) l.1)) out
            ∙ ap (λ k. sent k (listed k (some (some names)))) count
            ∙ ap (sent n) (listed_lem n names (omega arith)),
      )
