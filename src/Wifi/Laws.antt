-- ===== src/Wifi/Laws.antt =====
-- connectWithAp ends, and what a scan finds is what is listed.
use c_utilities.Common.{
  ℕ, zero, suc, ◌+◌, ◌≤◌, ◌<◌, ◌≡◌, ◌≢◌, ◌⊎◌, inl, inr, refl, ap, ◌∙◌, true, false, some, List, [],
  ◌∷◌, ltb, if◌then◌else◌, if_true, if_false, Bool-cases, subst, length, Bytes, arith,
}
use c_utilities.Common.Int.{ℤ, pos, negsuc}
use c_utilities.Common.Run.{Run, done, fault, ◌>>=◌}
use c_utilities.Wifi.{
  WlStatus, wl_connected, wl_no_ssid_avail, wl_connect_failed, wl_other, is_connected, has_failed,
  connect_from, connect_with_ap, Scan, ScanState, scan_state_idle, scan_state_inprogress,
  scan_state_complete, get_ap_detail, read_names, scanned, init_ap_scan, get_ap_list,
}

-- How the loop ends: connected, or given up, after so many seconds.
pub data Outcome (status : ℕ → WlStatus × WlStatus × WlStatus) (k : ℕ) : ℕ → Type 0 where
  connected : is_connected (status k).0 ≡ true → Outcome status k 0
  gave_up :
      is_connected (status k).0 ≡ false
      → has_failed (status k).1 (status k).2 k ≡ true
      → Outcome status k 1

has_failed_30 : (s t : WlStatus) → has_failed s t 30 ≡ true
unfolding has_failed
has_failed_30 wl_no_ssid_avail t = refl
has_failed_30 wl_connected wl_connect_failed = refl
has_failed_30 wl_connect_failed wl_connect_failed = refl
has_failed_30 wl_other wl_connect_failed = refl
has_failed_30 wl_connected wl_connected = refl
has_failed_30 wl_connected wl_no_ssid_avail = refl
has_failed_30 wl_connected wl_other = refl
has_failed_30 wl_connect_failed wl_connected = refl
has_failed_30 wl_connect_failed wl_no_ssid_avail = refl
has_failed_30 wl_connect_failed wl_other = refl
has_failed_30 wl_other wl_connected = refl
has_failed_30 wl_other wl_no_ssid_avail = refl
has_failed_30 wl_other wl_other = refl

-- No round before `k` ended the loop.
abbrev pub Waited : (ℕ → WlStatus × WlStatus × WlStatus) → ℕ → ℕ → Type 0
Waited status from k =
    (j : ℕ)
    → from ≤ j
    → j < k
    → (is_connected (status j).0 ≡ false) × (has_failed (status j).1 (status j).2 j ≡ false)

first_or_later : (t j : ℕ) → t ≤ j → (t ≡ j) ⊎ (t + 1 ≤ j)
first_or_later t j h = elim (Bool-cases (ltb t j)) [
  | inl e ↦ inr (ground (arith, e))
  | inr e ↦ inl (ground (arith, e))
]

-- The loop does not go on after round 30.
not_last :
    (status : ℕ → WlStatus × WlStatus × WlStatus) (fuel t : ℕ)
    → t + suc fuel ≡ 31
    → has_failed (status t).1 (status t).2 t ≡ false
    → 0 < fuel
not_last status zero t e f =
    let last : t ≡ 30 = omega (arith, e) in
    let fails : has_failed (status t).1 (status t).2 t ≡ true =
      ap (has_failed (status t).1 (status t).2) last ∙ has_failed_30 (status t).1 (status t).2 in
    absurd (cc)
not_last status (suc fuel) t e f = omega arith

connect_from_total :
    (status : ℕ → WlStatus × WlStatus × WlStatus) (fuel t : ℕ)
    → t + fuel ≡ 31
    → 0 < fuel
    → (r k : ℕ) × (connect_from status fuel t ≡ done (r, k))
      × (k ≤ 30)
      × Outcome status k r
      × Waited status t k
unfolding connect_from
connect_from_total status zero t e l = absurd (omega arith)
connect_from_total status (suc fuel) t e l =
    let here = status t in
    let rest = connect_from status fuel (t + 1) in
    let failed = has_failed here.1 here.2 t in
    elim (Bool-cases (is_connected here.0)) [
      | inl c ↦ (
        0,
        t,
        if_true _ (if failed then done (1, t) else rest) c,
        omega arith,
        connected c,
        λ j p q. absurd (omega (arith, p, q)),
      )
      | inr c ↦ elim (Bool-cases failed) [
        | inl f ↦ (
          1,
          t,
          if_false (done (0, t)) _ c ∙ if_true _ rest f,
          omega arith,
          gave_up c f,
          λ j p q. absurd (omega (arith, p, q)),
        )
        | inr f ↦
            let Passed : ℕ → Type 0 = λ j.
              (is_connected (status j).0 ≡ false)
              × (has_failed (status j).1 (status j).2 j ≡ false) in
            let more : 0 < fuel = not_last status fuel t e f in
            let (r, k, run, bound, out, waited) =
              connect_from_total status fuel (t + 1) (omega (arith, e)) more in
            (
              r,
              k,
              if_false (done (0, t)) _ c ∙ if_false (done (1, t)) _ f ∙ run,
              bound,
              out,
              λ j p q. elim (first_or_later t j p) [
                | inl now ↦ subst Passed now (c, f)
                | inr later ↦ waited j later q
              ],
            )
      ]
    ]

-- connectWithAp ends after at most 30 seconds, with 0 if and only if the status was found connected
-- in the last round, and no round before had a connection, or a failure.
pub connect_with_ap_total :
    (status : ℕ → WlStatus × WlStatus × WlStatus)
    → (r k : ℕ) × (connect_with_ap status ≡ done (r, k))
      × (k ≤ 30)
      × Outcome status k r
      × Waited status 0 k
unfolding connect_with_ap
connect_with_ap_total status = connect_from_total status 31 0 (omega arith) (omega arith)

-- Names that fit the entries.
abbrev pub AllShort : List Bytes → Type 0
AllShort [] = Unit
AllShort (n ∷ names) = (length n < 40) × AllShort names

read_names_lem : (names : List Bytes) → AllShort names → read_names names ≡ done names
unfolding read_names get_ap_detail
read_names_lem [] h = refl
read_names_lem (n ∷ names) h =
    let fits : ltb (length n) 40 ≡ true = ground (arith, h.0) in
    ap (λ b. (if b then done n else fault) >>= λ s. read_names names >>= λ rest. done (s ∷ rest))
      fits
    ∙ ap (λ r. r >>= λ rest. done (n ∷ rest)) (read_names_lem names h.1)

scanned_lem :
    (names : List Bytes) (s : Scan)
    → AllShort names
    → (s1 : Scan) × (scanned true names s ≡ done (pos (length names), s1))
      × (get_ap_list s1 ≡ (pos (length names), some (some names)))
unfolding scanned get_ap_list
scanned_lem [] s h = (_, refl, refl)
scanned_lem (n ∷ names) s h =
    let listed : List Bytes → ℤ × Scan = λ xs. (
      pos (length xs),
      record s {
        scan_state = scan_state_complete;
        scan_ap_count = pos (length xs);
        ap_scan_list = some xs;
      },
    ) in
    (
      (listed (n ∷ names)).1,
      ap (λ r. r >>= λ xs. done (listed xs)) (read_names_lem (n ∷ names) h),
      refl,
    )

abbrev begun : List Bytes → Scan → ScanState → Run (ℤ × Scan)
begun names s x = elim x [ scan_state_inprogress ↦ done (negsuc 0, s) | _ ↦ scanned true names s ]

started :
    (x : ScanState) (names : List Bytes) (s : Scan)
    → s.scan_state ≡ x
    → x ≢ scan_state_inprogress
    → init_ap_scan true (some names) s ≡ scanned true names s
unfolding init_ap_scan
started scan_state_idle names s e n = ap (begun names s) e
started scan_state_inprogress names s e n = absurd (n refl)
started scan_state_complete names s e n = ap (begun names s) e

-- A scan that is not in progress and finds networks, or none, lists all of them in order.
pub get_ap_list-init_ap_scan :
    (names : List Bytes) (s : Scan)
    → s.scan_state ≢ scan_state_inprogress
    → AllShort names
    → (s1 : Scan) × (init_ap_scan true (some names) s ≡ done (pos (length names), s1))
      × (get_ap_list s1 ≡ (pos (length names), some (some names)))
get_ap_list-init_ap_scan names s n h =
    let (s1, run, out) = scanned_lem names s h in
    (s1, started s.scan_state names s refl n ∙ run, out)
