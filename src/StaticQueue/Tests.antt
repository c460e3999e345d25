-- ===== src/StaticQueue/Tests.antt =====
-- Runs of the queue, and the theorems at concrete queues.
use c_utilities.Common.{ℕ, ◌≡◌, refl, List, [], ◌∷◌, none, some, arith}
use c_utilities.ErrorTypes.{e_success, e_queue_full, e_queue_empty}
use c_utilities.StaticQueue.{StaticQueue, valid_mark_value, put_at, get_at, max_len}
use c_utilities.StaticQueue.Fifo.{Call, puts, gets, Fifo, serve_all}
use c_utilities.StaticQueue.Invariant.{IsValid}
use c_utilities.StaticQueue.Refinement.{Represents, call_all, call_all_refines}

-- 8, then 9, round the end of three cells.
abbrev turned : StaticQueue ℕ
turned = record {
  valid_mark = valid_mark_value;
  queue_len = 3;
  queue_data_size = 4;
  queue_write_ptr = 1;
  queue_read_ptr = 2;
  queue_msg_count = 2;
  queue_high_mark = 0;
  queue_drop_count = 5;
  queue_data = 9 ∷ 7 ∷ 8 ∷ [];
}

abbrev turned_list : Fifo ℕ
turned_list = record { items = 8 ∷ 9 ∷ []; limit = 3; dropped = 5 }

abbrev script : List (Call ℕ)
script = puts 1 ∷ puts 2 ∷ gets ∷ gets ∷ gets ∷ gets ∷ []

turned-IsValid : IsValid turned
turned-IsValid = omega arith

turned-Represents : Represents turned turned_list
turned-Represents = record {
  valid = turned-IsValid;
  counted = refl;
  limited = refl;
  lost = refl;
  window = (refl, (refl, tt));
}

call_all-turned :
    call_all turned script
    ≡ (e_success, none)
      ∷ (e_queue_full, none)
      ∷ (e_success, some 8)
      ∷ (e_success, some 9)
      ∷ (e_success, some 1)
      ∷ (e_queue_empty, none)
      ∷ []
unfolding call_all put_at get_at
call_all-turned = refl

max_len-null : max_len {A = ℕ} none ≡ 4294962298
unfolding max_len
max_len-null = refl

call_all_refines_example : call_all turned script ≡ serve_all turned_list script
call_all_refines_example = call_all_refines script turned turned_list turned-Represents

abbrev fresh : StaticQueue ℕ
fresh = record {
  valid_mark = valid_mark_value;
  queue_len = 3;
  queue_data_size = 4;
  queue_write_ptr = 0;
  queue_read_ptr = 0;
  queue_msg_count = 0;
  queue_high_mark = 0;
  queue_drop_count = 0;
  queue_data = 0 ∷ 0 ∷ 0 ∷ [];
}
