-- ===== src/TcpControl/Framing.antt =====
-- Control messages, as they are collected in the buffer.
pub mod Cloud
use c_utilities.Common.{
  ℕ, suc, ◌+◌, ◌%◌, ◌<◌, ◌≡◌, ◌≢◌, refl, ap, ap₂, sym, ◌∙◌, true, false, ◌&&◌, [], ◌∷◌, ◌++◌,
  append-nil, append_assoc, ltb, ◌==◌, if◌then◌else◌, length, length-append, length-set, subst,
  drop, set, set_middle, Bytes, arith, Bool-cases, inl, inr,
}
use c_utilities.Common.Run.{Run, done, ◌>>=◌}
use c_utilities.TcpControl.{Messenger, is_end, store_at, flush_full, store_message, c_string}

-- The pointer stays inside the buffer.
pub record IsBounded (m : Messenger) : Type 0 where
  pub whole : length m.buffer ≡ 256
  pub inside : m.write_ptr < 256

pub store_at_lem : (i x : ℕ) (b : Bytes) → i < length b → store_at i x b ≡ done (set b i x)
unfolding store_at
store_at_lem i x b h = ground arith

-- The buffer is never found full: the pointer, an unsigned char, is 0 again after 255.
pub flush_full_lem : (m : Messenger) → IsBounded m → flush_full m ≡ m
unfolding flush_full
flush_full_lem m h = let p = h.inside in ground (arith, p)

-- Where a byte of a message goes: '{' starts another message while the old one is short.
abbrev pub place : ℕ → Messenger → ℕ
place x m = if x == 123 && ltb m.write_ptr 5 then 0 else m.write_ptr

abbrev pub ended : Messenger → Bytes → ℕ × Messenger
ended m b = (0, record m { buffer = b; write_ptr = 0; ready = true })

abbrev pub placed : ℕ → Messenger → Bytes → ℕ × Messenger
placed i m b = (1, record m { buffer = b; write_ptr = (i + 1) % 256 })

-- What storeMessage does with a byte when the buffer is not flushed.
abbrev pub stored_in : ℕ → Messenger → Run (ℕ × Messenger)
stored_in x m =
    if is_end x
    then (store_at m.write_ptr 0 m.buffer >>= λ b. done (ended m b))
    else (store_at (place x m) x m.buffer >>= λ b. done (placed (place x m) m b))

pub store_message_start : (x : ℕ) (m : Messenger) → IsBounded m → store_message x m ≡ stored_in x m
unfolding store_message
store_message_start x m h = ap (stored_in x) (flush_full_lem m h)

store_message_end :
    (x : ℕ) (m : Messenger)
    → IsBounded m
    → is_end x ≡ true
    → store_message x m ≡ done (ended m (set m.buffer m.write_ptr 0))
store_message_end x m h e =
    let inside : m.write_ptr < length m.buffer = omega (arith, h.inside, h.whole) in
    store_message_start x m h
    ∙ ap
        (λ b.
          if b
          then (store_at m.write_ptr 0 m.buffer >>= λ b. done (ended m b))
          else (store_at (place x m) x m.buffer >>= λ b. done (placed (place x m) m b)))
        e
    ∙ ap (λ r. r >>= λ b. done (ended m b)) (store_at_lem m.write_ptr 0 m.buffer inside)

pub place_inside : (x : ℕ) (m : Messenger) → IsBounded m → place x m < 256
place_inside x m h = let p = h.inside in ground (arith, p)

pub store_message_plain :
    (x : ℕ) (m : Messenger)
    → IsBounded m
    → is_end x ≡ false
    → store_message x m ≡ done (placed (place x m) m (set m.buffer (place x m) x))
store_message_plain x m h e =
    let inside : place x m < length m.buffer = omega (arith, place_inside x m h, h.whole) in
    store_message_start x m h
    ∙ ap
        (λ b.
          if b
          then (store_at m.write_ptr 0 m.buffer >>= λ b. done (ended m b))
          else (store_at (place x m) x m.buffer >>= λ b. done (placed (place x m) m b)))
        e
    ∙ ap (λ r. r >>= λ b. done (placed (place x m) m b))
        (store_at_lem (place x m) x m.buffer inside)

-- storeMessage writes inside the buffer, and keeps the pointer inside, for any byte.
pub store_message-IsBounded :
    (x : ℕ) (m : Messenger)
    → IsBounded m
    → (n : ℕ) × (m1 : Messenger) × (store_message x m ≡ done (n, m1)) × IsBounded m1
store_message-IsBounded x m h =
    let w = h.whole in
    elim (Bool-cases (is_end x)) [
      | inl e ↦ (
        0,
        (ended m (set m.buffer m.write_ptr 0)).1,
        store_message_end x m h e,
        record { whole = length-set m.buffer m.write_ptr 0 ∙ w; inside = omega arith },
      )
      | inr e ↦ (
        1,
        (placed (place x m) m (set m.buffer (place x m) x)).1,
        store_message_plain x m h e,
        record { whole = length-set m.buffer (place x m) x ∙ w; inside = omega arith },
      )
    ]

-- The bytes of a message stored one after the other.
abbrev pub store_all : Bytes → Messenger → Run Messenger
store_all [] m = done m
store_all (x ∷ s) m = store_message x m >>= λ r. store_all s r.1

-- Bytes from offset `p` of a message on: none ends it, no '{' starts another, and none is 255, which
-- is what `read` gives without a byte.
abbrev pub IsContinued : ℕ → Bytes → Type 0
IsContinued p [] = Unit
IsContinued p (x ∷ s) = (is_end x ≡ false) × ((p < 5) → x ≢ 123) × (x ≢ 255) × IsContinued (p + 1) s

abbrev pub AllPlain : Bytes → Type 0
AllPlain [] = Unit
AllPlain (x ∷ s) = (is_end x ≡ false) × (x ≢ 255) × AllPlain s

pub IsContinued-AllPlain : (p : ℕ) (s : Bytes) → IsContinued p s → AllPlain s
IsContinued-AllPlain p [] h = tt
IsContinued-AllPlain p (x ∷ s) h = (h.0, h.2, IsContinued-AllPlain (p + 1) s h.3)

-- The messenger with `d` stored.
abbrev pub holding : Messenger → Bytes → Bytes → Messenger
holding m d t = record m { buffer = d ++ t; write_ptr = length d }

store_all_lem :
    (s d t : Bytes) (m : Messenger)
    → IsContinued (length d) s
    → length d + length t ≡ 256
    → length s < length t
    → (u : Bytes) × (store_all s (holding m d t) ≡ done (holding m (d ++ s) u))
      × (length u + length s ≡ length t)
store_all_lem [] d t m h w l =
    (t, ap (λ xs. done (holding m xs t)) (sym (append-nil d)), omega arith)
store_all_lem (x ∷ s) d [] m h w l = absurd (omega arith)
store_all_lem (x ∷ s) d (y ∷ t) m h w l =
    let here = holding m d (y ∷ t) in
    let bounded : IsBounded here = record {
      whole = length-append d (y ∷ t) ∙ w;
      inside = omega arith;
    } in
    let not_first = h.1 in
    let stays : place x here ≡ length d = ground (arith, not_first) in
    let written : set (d ++ y ∷ t) (place x here) x ≡ (d ++ x ∷ []) ++ t =
      ap (λ i. set (d ++ y ∷ t) i x) stays ∙ set_middle d y x t ∙ sym (append_assoc d (x ∷ []) t) in
    let next : (place x here + 1) % 256 ≡ length (d ++ x ∷ []) =
      omega (arith, stays, length-append d (x ∷ [])) in
    let (u, run, len) =
      store_all_lem s (d ++ x ∷ []) t m
        (subst (λ p. IsContinued p s) (sym (length-append d (x ∷ []))) h.3)
        (omega (arith, length-append d (x ∷ []))) (omega arith) in
    (
      u,
      ap (λ r. r >>= λ q. store_all s q.1) (store_message_plain x here bounded h.0)
          ∙ ap₂ (λ b p. store_all s (record m { buffer = b; write_ptr = p })) written next
          ∙ run
          ∙ ap (λ xs. done (holding m xs u)) (append_assoc d (x ∷ []) s),
      omega (arith, len),
    )

c_string_lem : (p : ℕ) (s t : Bytes) → IsContinued p s → c_string (s ++ 0 ∷ t) ≡ done s
unfolding c_string
c_string_lem p [] t h = refl
c_string_lem p (x ∷ s) t h =
    let plain = h.0 in
    let nonzero : (x == 0) ≡ false = ground (arith, plain) in
    let rest = c_string_lem (p + 1) s t h.3 in
    ap (λ b. if b then done [] else (c_string (s ++ 0 ∷ t) >>= λ u. done (x ∷ u))) nonzero
    ∙ ap (λ r. r >>= λ u. done (x ∷ u)) rest

-- A message: '{', what continues it, and room for its end in the buffer.
pub record IsMessage (s : Bytes) : Type 0 where
  pub rest : Bytes
  pub starts : s ≡ 123 ∷ rest
  pub continued : IsContinued 1 rest
  pub short : length s < 256

-- The message is in the buffer, ready to be decoded, once its end is stored.
abbrev pub Received : Bytes → ℕ → Messenger → Type 0
Received s x m =
    (m1 : Messenger) × (m2 : Messenger) × (store_all s m ≡ done m1)
    × (store_message x m1 ≡ done (0, m2))
    × (c_string m2.buffer ≡ done s)
    × (m2.ready ≡ true)
    × (m1.ready ≡ m.ready)

first_byte :
    (b : Bytes) (x : ℕ) {n : ℕ}
    → length b ≡ suc n
    → (t : Bytes) × (set b 0 x ≡ x ∷ t) × (length t ≡ n)
first_byte [] x h = absurd (omega arith)
first_byte (y ∷ t) x h = (t, refl, omega arith)

Received-whole :
    (s u : Bytes) (x : ℕ) (m : Messenger)
    → is_end x ≡ true
    → length s + length u ≡ 256
    → 0 < length u
    → c_string (s ++ 0 ∷ drop 1 u) ≡ done s
    → store_all s m ≡ done (holding m s u)
    → Received s x m
Received-whole s [] x m e w l c run = absurd (omega arith)
Received-whole s (y ∷ u) x m e w l c run =
    let here = holding m s (y ∷ u) in
    let bounded : IsBounded here = record {
      whole = length-append s (y ∷ u) ∙ w;
      inside = omega arith;
    } in
    let buffer : set (s ++ y ∷ u) (length s) 0 ≡ s ++ 0 ∷ u = set_middle s y 0 u in
    (
      here,
      (ended here (set (s ++ y ∷ u) (length s) 0)).1,
      run,
      store_message_end x here bounded e,
      ap c_string buffer ∙ c,
      refl,
      refl,
    )

-- A message that is received where at most four bytes of another are stored, and its end, leave
-- the message in the buffer, ready to be decoded.
pub message_lem :
    (s : Bytes) (x : ℕ) (m : Messenger)
    → IsMessage s
    → is_end x ≡ true
    → IsBounded m
    → m.write_ptr < 5
    → Received s x m
unfolding c_string
message_lem s x m h e b l =
    let rest = h.rest in
    let continued : IsContinued 1 rest = h.continued in
    let size : length s ≡ suc (length rest) = ap length h.starts in
    let (t, first, len) = first_byte m.buffer 123 b.whole in
    let (u, run, left) =
      store_all_lem rest (123 ∷ []) t m continued (omega (arith, len))
        (omega (arith, h.short, size, len)) in
    let p : m.write_ptr < 5 = l in
    let start : place 123 m ≡ 0 = ground (arith, p) in
    let step : store_message 123 m ≡ done (1, holding m (123 ∷ []) t) =
      store_message_plain 123 m b refl
      ∙ ap (λ i. done (placed i m (set m.buffer i 123))) start
      ∙ ap (λ xs. done (1, record m { buffer = xs; write_ptr = 1 })) first in
    let all : store_all (123 ∷ rest) m ≡ done (holding m (123 ∷ rest) u) =
      ap (λ r. r >>= λ q. store_all rest q.1) step ∙ run in
    let read : c_string (123 ∷ rest ++ 0 ∷ drop 1 u) ≡ done (123 ∷ rest) =
      ap (λ r. r >>= λ t. done (123 ∷ t)) (c_string_lem 1 rest (drop 1 u) continued) in
    subst (λ s. Received s x m) (sym h.starts)
      (Received-whole (123 ∷ rest) u x m e (omega (arith, left, len))
        (omega (arith, left, len, h.short, size)) read all)
