-- ===== src/Platform/Laws.antt =====
-- What is stored is read back, and the rest is kept.
use c_utilities.Common.{
  ℕ, zero, suc, ◌+◌, ◌*◌, ◌/◌, ◌%◌, ◌^◌, ◌<◌, ◌≤◌, ◌≡◌, ◌≢◌, refl, ap, ap₂, sym, ◌∙◌, none, some,
  List, [], ◌∷◌, arith, length, ◌++◌, append_assoc, get_elem?_middle, length-append,
}
use c_utilities.Common.Run.{done, fault, ◌>>=◌}
use c_utilities.Platform.{
  Eeprom, IsEeprom, get_persistent_byte, read_from, get_persistent_bytes, get_persistent_short,
  set_persistent_byte, set_persistent_short, write_from, set_persistent_bytes, fill_from,
  set_persistent_bytes_with_data_byte,
}

abbrev pub AllBytes : List ℕ → Type 0
AllBytes [] = Unit
AllBytes (x ∷ xs) = (x < 256) × AllBytes xs

module _ {S : Type 0} (E : Eeprom S) where
  -- The EEPROM after some bytes are written from an address on.
  abbrev pub write_all : ℕ → List ℕ → S → S
  write_all a [] s = s
  write_all a (x ∷ xs) s = write_all (a + 1) xs (E.write s a x)

  write_from_lem :
      (pre post : List ℕ) (a : ℕ) (s : S)
      → write_from E (length post) (length pre) a (pre ++ post) s ≡ done (write_all a post s)
  unfolding write_from
  write_from_lem pre [] a s = refl
  write_from_lem pre (x ∷ post) a s =
      let rest = write_from_lem (pre ++ x ∷ []) post (a + 1) (E.write s a x) in
      ap
        (λ o. elim o [
          | none ↦ fault
          | some v ↦
              write_from E (length post) (length pre + 1) (a + 1) (pre ++ x ∷ post) (E.write s a v)
        ])
        (get_elem?_middle pre x post)
      ∙ ap₂ (λ n xs. write_from E (length post) n (a + 1) xs (E.write s a x))
          (sym (length-append pre (x ∷ []))) (sym (append_assoc pre (x ∷ []) post))
      ∙ rest

  pub set_bytes_lem :
      (a : ℕ) (xs : List ℕ) (s : S)
      → set_persistent_bytes E a xs (length xs) s ≡ done (E.finish (write_all a xs (E.begin s)))
  unfolding set_persistent_bytes
  set_bytes_lem a xs s =
      ap (λ m. m >>= λ s1. done (E.finish s1)) (write_from_lem [] xs a (E.begin s))

module _ {S : Type 0} (E : Eeprom S) (h : IsEeprom E) where
  -- The byte that is stored at an address.
  abbrev pub content : S → ℕ → ℕ
  content s a = E.read (E.begin s) a

  pub get_byte_lem : (a : ℕ) (s : S) → (get_persistent_byte E a s).0 ≡ content s a
  unfolding get_persistent_byte
  get_byte_lem a s = refl

  pub content-get_byte : (a b : ℕ) (s : S) → content (get_persistent_byte E a s).1 b ≡ content s b
  unfolding get_persistent_byte
  content-get_byte a b s = h.persists (E.begin s) b

  pub content-set_byte :
      (a v : ℕ) (s : S) → a < 512 → v < 256 → content (set_persistent_byte E a v s) a ≡ v
  unfolding set_persistent_byte
  content-set_byte a v s p w = h.persists _ a ∙ h.written (E.begin s) a v p w

  pub content-set_byte_other :
      (a b v : ℕ) (s : S) → a ≢ b → content (set_persistent_byte E a v s) b ≡ content s b
  unfolding set_persistent_byte
  content-set_byte_other a b v s n = h.persists _ b ∙ h.others (E.begin s) a b v n

  -- getPersistentShort of what setPersistentShort stored within the 512 bytes.
  pub get_short-set_short :
      (a v : ℕ) (s : S)
      → a + 1 < 512
      → v < 2 ^ 16
      → (get_persistent_short E a (set_persistent_short E a v s)).0 ≡ v
  unfolding get_persistent_short set_persistent_short
  get_short-set_short a v s p w =
      let s1 = E.write (E.begin s) a (v % 256) in
      let s2 = E.write s1 (a + 1) (v / 256 % 256) in
      let lsb : E.read (E.begin (E.finish s2)) a ≡ v % 256 =
        h.persists s2 a
        ∙ h.others s1 (a + 1) a (v / 256 % 256) (λ e. absurd (omega (arith, e)))
        ∙ h.written (E.begin s) a (v % 256) (omega arith) (omega arith) in
      let msb : E.read (E.begin (E.finish s2)) (a + 1) ≡ v / 256 % 256 =
        h.persists s2 (a + 1) ∙ h.written s1 (a + 1) (v / 256 % 256) p (omega arith) in
      ap₂ (λ m l. (m * 256 + l) % 65536) msb lsb ∙ omega arith

  read_fill_below : (len a b v : ℕ) (s : S) → b < a → E.read (fill_from E len a v s) b ≡ E.read s b
  unfolding fill_from
  read_fill_below zero a b v s p = refl
  read_fill_below (suc len) a b v s p =
      read_fill_below len (a + 1) b v (E.write s a v) (omega arith)
      ∙ h.others s a b v (λ e. absurd (omega (arith, e)))

  read_fill :
      (len a i v : ℕ) (s : S)
      → i < len
      → a + len ≤ 512
      → v < 256
      → E.read (fill_from E len a v s) (a + i) ≡ v
  unfolding fill_from
  read_fill zero a i v s p q w = absurd (omega arith)
  read_fill (suc len) a zero v s p q w =
      ap (E.read (fill_from E len (a + 1) v (E.write s a v))) (omega arith)
      ∙ read_fill_below len (a + 1) a v (E.write s a v) (omega arith)
      ∙ h.written s a v (omega arith) w
  read_fill (suc len) a (suc i) v s p q w =
      ap (E.read (fill_from E len (a + 1) v (E.write s a v))) (omega arith)
      ∙ read_fill len (a + 1) i v (E.write s a v) (omega arith) (omega arith) w

  -- Every byte of the region that setPersistentBytesWithDataByte fills within the 512 bytes.
  pub content-fill :
      (a len i v : ℕ) (s : S)
      → i < len
      → a + len ≤ 512
      → v < 256
      → content (set_persistent_bytes_with_data_byte E a len v s) (a + i) ≡ v
  unfolding set_persistent_bytes_with_data_byte
  content-fill a len i v s p q w = h.persists _ (a + i) ∙ read_fill len a i v (E.begin s) p q w

  read_write_all_below :
      (xs : List ℕ) (a b : ℕ) (s : S) → b < a → E.read (write_all E a xs s) b ≡ E.read s b
  read_write_all_below [] a b s p = refl
  read_write_all_below (x ∷ xs) a b s p =
      read_write_all_below xs (a + 1) b (E.write s a x) (omega arith)
      ∙ h.others s a b x (λ e. absurd (omega (arith, e)))

  read_from_same :
      (len a : ℕ) (s t : S)
      → ((b : ℕ) → a ≤ b → E.read t b ≡ E.read s b)
      → read_from E len a t ≡ read_from E len a s
  unfolding read_from
  read_from_same zero a s t same = refl
  read_from_same (suc len) a s t same =
      ap₂ ◌∷◌ (same a (omega arith)) (read_from_same len (a + 1) s t (λ b l. same b (omega arith)))

  read_from-add :
      (m n a : ℕ) (s : S) → read_from E (m + n) a s ≡ read_from E m a s ++ read_from E n (a + m) s
  unfolding read_from
  read_from-add zero n a s = ap₂ (λ k b. read_from E k b s) (omega arith) (omega arith)
  read_from-add (suc m) n a s =
      let here : suc m + n ≡ suc (m + n) = omega arith in
      ap (λ k. read_from E k a s) here
      ∙ ap (◌∷◌ (E.read s a)) (
          read_from-add m n (a + 1) s
          ∙ ap (λ b. read_from E m (a + 1) s ++ read_from E n b s) (omega arith))

  length-read_from : (n a : ℕ) (s : S) → length (read_from E n a s) ≡ n
  unfolding read_from
  length-read_from zero a s = refl
  length-read_from (suc n) a s = ap suc (length-read_from n (a + 1) s)

  read_from_written :
      (xs : List ℕ) (a : ℕ) (s : S)
      → AllBytes xs
      → a + length xs ≤ 512
      → read_from E (length xs) a (write_all E a xs s) ≡ xs
  unfolding read_from
  read_from_written [] a s w p = refl
  read_from_written (x ∷ xs) a s w p =
      ap₂ ◌∷◌
        (read_write_all_below xs (a + 1) a (E.write s a x) (omega arith)
          ∙ h.written s a x (omega arith) w.0)
        (read_from_written xs (a + 1) (E.write s a x) w.1 (omega arith))

  -- Bytes read back although more are written behind them.
  read_from_prefix :
      (xs ys : List ℕ) (a : ℕ) (s : S)
      → AllBytes xs
      → a + length xs ≤ 512
      → read_from E (length xs) a (write_all E a (xs ++ ys) s) ≡ xs
  unfolding read_from
  read_from_prefix [] ys a s w p = refl
  read_from_prefix (x ∷ xs) ys a s w p =
      ap₂ ◌∷◌
        (read_write_all_below (xs ++ ys) (a + 1) a (E.write s a x) (omega arith)
          ∙ h.written s a x (omega arith) w.0)
        (read_from_prefix xs ys (a + 1) (E.write s a x) w.1 (omega arith))

  -- getPersistentBytes of `n` more bytes than are known.
  pub get_bytes_prefix :
      (a n : ℕ) (xs ys : List ℕ) (s : S)
      → AllBytes xs
      → a + length xs ≤ 512
      → (zs : List ℕ) × ((get_persistent_bytes E a
            (length xs + n)
            (E.finish (write_all E a (xs ++ ys) s))).0
          ≡ xs ++ zs)
        × (length zs ≡ n)
  unfolding get_persistent_bytes
  get_bytes_prefix a n xs ys s w p =
      let t = write_all E a (xs ++ ys) s in
      let u = E.begin (E.finish t) in
      (
        read_from E n (a + length xs) u,
        read_from-add (length xs) n a u
            ∙ ap (λ zs. zs ++ read_from E n (a + length xs) u)
                (read_from_same (length xs) a t u (λ b l. h.persists t b)
                  ∙ read_from_prefix xs ys a s w p),
        length-read_from n (a + length xs) u,
      )

  -- A byte stored below the bytes that getPersistentBytes reads does not matter.
  pub get_bytes-set_byte_below :
      (a n b v : ℕ) (s : S)
      → b < a
      → (get_persistent_bytes E a n (set_persistent_byte E b v s)).0
        ≡ (get_persistent_bytes E a n s).0
  unfolding get_persistent_bytes set_persistent_byte
  get_bytes-set_byte_below a n b v s p =
      read_from_same n a (E.begin s) (E.begin (E.finish (E.write (E.begin s) b v))) (λ c l.
        h.persists (E.write (E.begin s) b v) c
        ∙ h.others (E.begin s) b c v (λ e. absurd (omega (arith, e))))

  pub content-get_bytes :
      (a n b : ℕ) (s : S) → content (get_persistent_bytes E a n s).1 b ≡ content s b
  unfolding get_persistent_bytes
  content-get_bytes a n b s = h.persists (E.begin s) b

  -- getPersistentBytes of what setPersistentBytes stored within the 512 bytes.
  pub get_bytes-set_bytes :
      (a : ℕ) (xs : List ℕ) (s : S)
      → AllBytes xs
      → a + length xs ≤ 512
      → (s1 : S) × (set_persistent_bytes E a xs (length xs) s ≡ done s1)
        × ((get_persistent_bytes E a (length xs) s1).0 ≡ xs)
  unfolding set_persistent_bytes get_persistent_bytes
  get_bytes-set_bytes a xs s w p =
      let t = write_all E a xs (E.begin s) in
      (
        E.finish t,
        set_bytes_lem E a xs s,
        read_from_same (length xs) a t (E.begin (E.finish t)) (λ b l. h.persists t b)
            ∙ read_from_written xs a (E.begin s) w p,
      )
