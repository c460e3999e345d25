-- ===== src/BootConfiguration/Flags.antt =====
-- The flags are told apart, and survive until they are cleared.
use c_utilities.Common.{
  ℕ, ◌<◌, ◌≤◌, ◌≡◌, ◌≢◌, refl, ap, sym, ◌∙◌, true, false, arith, ◌==◌, if◌then◌else◌, Bool-cases,
  inl, inr,
}
use c_utilities.Platform.{
  Eeprom, IsEeprom, get_persistent_byte, set_persistent_byte, get_persistent_bytes,
}
use c_utilities.Platform.Laws.{
  content, content-set_byte, content-set_byte_other, content-fill, content-get_byte,
  content-get_bytes, get_bytes-set_byte_below, get_byte_lem,
}
use c_utilities.BootConfiguration.{
  Part, network_config, motor_config, device_id, address_of, mark_of, is_first_boot, is_present,
  set_presence, clear_presence, flush_boot_config,
}

address-inj : (p q : Part) → p ≢ q → address_of p ≢ address_of q
address-inj network_config network_config n e = n refl
address-inj motor_config motor_config n e = n refl
address-inj device_id device_id n e = n refl
address-inj p q n e = absurd (omega (arith, e))

address_bound : (p : Part) → address_of p < 13
address_bound network_config = omega arith
address_bound motor_config = omega arith
address_bound device_id = omega arith

mark_bound : (p : Part) → mark_of p < 256
mark_bound network_config = omega arith
mark_bound motor_config = omega arith
mark_bound device_id = omega arith

mark_nonzero : (p : Part) → (0 == mark_of p) ≡ false
mark_nonzero network_config = refl
mark_nonzero motor_config = refl
mark_nonzero device_id = refl

mark_self : (p : Part) → (mark_of p == mark_of p) ≡ true
mark_self network_config = refl
mark_self motor_config = refl
mark_self device_id = refl

module _ {S : Type 0} (E : Eeprom S) (h : IsEeprom E) where
  is_present_lem :
      (p : Part) (s : S)
      → (is_present E p s).0 ≡ (if content E h s (address_of p) == mark_of p then 1 else 0)
  unfolding is_present
  is_present_lem p s = ap (λ v. if v == mark_of p then 1 else 0) (get_byte_lem E h (address_of p) s)

  -- Reading a flag leaves all of them.
  pub is_present_again :
      (p q : Part) (s : S) → (is_present E p (is_present E q s).1).0 ≡ (is_present E p s).0
  unfolding is_present
  is_present_again p q s =
      is_present_lem p (is_present E q s).1
      ∙ ap (λ v. if v == mark_of p then 1 else 0)
          (content-get_byte E h (address_of q) (address_of p) s)
      ∙ sym (is_present_lem p s)

  -- Reading other bytes leaves the flags.
  pub is_present-get_bytes :
      (p : Part) (a n : ℕ) (s : S)
      → (is_present E p (get_persistent_bytes E a n s).1).0 ≡ (is_present E p s).0
  is_present-get_bytes p a n s =
      is_present_lem p (get_persistent_bytes E a n s).1
      ∙ ap (λ v. if v == mark_of p then 1 else 0) (content-get_bytes E h a n (address_of p) s)
      ∙ sym (is_present_lem p s)

  -- The flags stand before what is read from address 13 on.
  pub get_bytes-set_presence :
      (p : Part) (a n : ℕ) (s : S)
      → 13 ≤ a
      → (get_persistent_bytes E a n (set_presence E p s)).0 ≡ (get_persistent_bytes E a n s).0
  unfolding set_presence
  get_bytes-set_presence p a n s l =
      get_bytes-set_byte_below E h a n (address_of p) (mark_of p) s (omega (arith, address_bound p))

  -- A flag that is set reads 1.
  pub is_present-set_presence : (p : Part) (s : S) → (is_present E p (set_presence E p s)).0 ≡ 1
  unfolding set_presence
  is_present-set_presence p s =
      is_present_lem p (set_presence E p s)
      ∙ ap (λ v. if v == mark_of p then 1 else 0)
          (content-set_byte E h (address_of p) (mark_of p) s (omega (arith, address_bound p))
            (mark_bound p))
      ∙ ap (λ b. if b then 1 else 0) (mark_self p)

  -- Setting or clearing one flag leaves the others.
  pub is_present-set_other :
      (p q : Part) (s : S)
      → p ≢ q
      → ((is_present E q (set_presence E p s)).0 ≡ (is_present E q s).0)
        × ((is_present E q (clear_presence E p s)).0 ≡ (is_present E q s).0)
  unfolding set_presence clear_presence
  is_present-set_other p q s n = (kept (mark_of p), kept 0)
    where
      kept :
          (v : ℕ)
          → (is_present E q (set_persistent_byte E (address_of p) v s)).0 ≡ (is_present E q s).0
      kept v =
          is_present_lem q (set_persistent_byte E (address_of p) v s)
          ∙ ap (λ x. if x == mark_of q then 1 else 0)
              (content-set_byte_other E h (address_of p) (address_of q) v s (address-inj p q n))
          ∙ sym (is_present_lem q s)

  -- A flag that is cleared, or flushed with all of them, reads 0.
  pub is_present-cleared :
      (p : Part) (s : S)
      → ((is_present E p (clear_presence E p s)).0 ≡ 0)
        × ((is_present E p (flush_boot_config E s)).0 ≡ 0)
  unfolding clear_presence flush_boot_config
  is_present-cleared p s = (
    absent (clear_presence E p s)
        (content-set_byte E h (address_of p) 0 s (omega (arith, address_bound p)) (omega arith)),
    absent (flush_boot_config E s) (
        ap (content E h (flush_boot_config E s)) (omega arith)
        ∙ content-fill E h 0 13 (address_of p) 0 s (address_bound p) (omega arith) (omega arith)),
  )
    where
      absent : (t : S) → content E h t (address_of p) ≡ 0 → (is_present E p t).0 ≡ 0
      absent t e =
          is_present_lem p t
          ∙ ap (λ v. if v == mark_of p then 1 else 0) e
          ∙ ap (λ b. if b then 1 else 0) (mark_nonzero p)

  is_first_boot_lem : (s : S) → (is_first_boot E s).0 ≡ (if content E h s 0 == 0xA5 then 0 else 1)
  unfolding is_first_boot
  is_first_boot_lem s = ground (arith, get_byte_lem E h 0 s)

  content-is_first_boot : (s : S) → content E h (is_first_boot E s).1 0 ≡ 0xA5
  unfolding is_first_boot
  content-is_first_boot s = elim (Bool-cases ((get_persistent_byte E 0 s).0 == 0xA5)) [
    | inl booted ↦
        let left : (is_first_boot E s).1 ≡ (get_persistent_byte E 0 s).1 = ground (arith, booted) in
        ap (λ t. content E h t 0) left
        ∙ content-get_byte E h 0 0 s
        ∙ sym (get_byte_lem E h 0 s)
        ∙ ground (arith, booted)
    | inr first ↦
        let t = (get_persistent_byte E 0 s).1 in
        let left : (is_first_boot E s).1 ≡ set_persistent_byte E 0 0xA5 t = ground (arith, first) in
        ap (λ t. content E h t 0) left ∙ content-set_byte E h 0 0xA5 t (omega arith) (omega arith)
  ]

  -- isFirstBoot answers 1 after flushBootConfig, and 0 when it is asked again.
  pub is_first_boot_twice :
      (s : S)
      → ((is_first_boot E (flush_boot_config E s)).0 ≡ 1)
        × ((is_first_boot E (is_first_boot E s).1).0 ≡ 0)
  unfolding flush_boot_config
  is_first_boot_twice s = (
    is_first_boot_lem (flush_boot_config E s)
        ∙ ap (λ v. if v == 0xA5 then 0 else 1)
            (content-fill E h 0 13 0 0 s (omega arith) (omega arith) (omega arith)),
    is_first_boot_lem (is_first_boot E s).1
        ∙ ap (λ v. if v == 0xA5 then 0 else 1) (content-is_first_boot s),
  )
