-- ===== src/TcpControl/Framing/Cloud.antt =====
-- The messages of the cloud are collected as those of the app are.
use c_utilities.Common.{
  ℕ, ◌+◌, ◌%◌, ◌≤◌, ◌<◌, ◌≡◌, ◌≢◌, ◌⊎◌, inl, inr, ap, sym, ◌∙◌, true, false, if◌then◌else◌,
  if_false, length, set, arith,
}
use c_utilities.Common.Run.{Run, done, ◌>>=◌}
use c_utilities.TcpControl.{Messenger, is_end, store_at, store_message, store_message_cloud}
use c_utilities.TcpControl.Framing.{
  IsBounded, place, placed, store_at_lem, flush_full_lem, store_message_plain,
}

-- What storeMessage_Cloud does with a byte when the buffer is not flushed.
abbrev stored_in_cloud : ℕ → Messenger → Run (ℕ × Messenger)
stored_in_cloud x m =
    if is_end x
    then (store_at m.write_ptr 0 m.buffer >>= λ b. done (0, record m { buffer = b; ready = true }))
    else (store_at m.write_ptr x m.buffer >>= λ b.
        done (1, record m { buffer = b; write_ptr = (m.write_ptr + 1) % 256 }))

-- storeMessage_Cloud does what storeMessage does with every byte that neither ends a message nor
-- starts another in place of a short one.
pub store_message_cloud_lem :
    (x : ℕ) (m : Messenger)
    → IsBounded m
    → is_end x ≡ false
    → (x ≢ 123) ⊎ ((m.write_ptr ≡ 0) ⊎ (5 ≤ m.write_ptr))
    → store_message_cloud x m ≡ store_message x m
unfolding store_message_cloud
store_message_cloud_lem x m h e why =
    let p = m.write_ptr in
    let stays : place x m ≡ p = elim why [
      | inl n ↦ ground (arith, n)
      | inr w ↦ elim w [ inl z ↦ ground (arith, z) | inr f ↦ ground (arith, f) ]
    ] in
    let inside : p < length m.buffer = omega (arith, h.inside, h.whole) in
    let there : ℕ → Run (ℕ × Messenger) = λ i. done (placed i m (set m.buffer i x)) in
    ap (stored_in_cloud x) (flush_full_lem m h)
    ∙ if_false _ _ e
    ∙ ap (λ r. r >>= λ b. done (placed p m b)) (store_at_lem p x m.buffer inside)
    ∙ ap there (sym stays)
    ∙ sym (store_message_plain x m h e)
