-- ===== src/Tests/Buffers.antt =====
-- internal/buffer/buffer.go on concrete input.
use serial_hub.Prelude.{
  ℕ, ◌≡◌, refl, [], ◌∷◌, ◌++◌, List, Bytes, codes, pos, negsuc, arith, ltb, if◌then◌else◌,
  take_last, length,
}
use serial_hub.Buffer.{DataBuffer, new_data_buffer, append, subscribe, notify, kept}
use serial_hub.Buffer.Calls.{Call, appends, reads, run}
use serial_hub.Buffer.Retention.{append_newest}
use serial_hub.Buffer.Stream.{run_fifo}

-- Eight bytes at most; the subscribers' state is what they were told.
abbrev small : DataBuffer (List Bytes)
small = record { buffer = codes "abcdef"; max_size = 8; observers = []; next_obs_id = 0 }

abbrev note : Bytes → ℕ → List Bytes → List Bytes
note chunk now seen = seen ++ chunk ∷ []

overflow : (append small (codes "ghij") 0 []).0.buffer ≡ codes "cdefghij"
unfolding append kept
overflow = refl

oversized : (append small (codes "0123456789") 0 []).0.buffer ≡ codes "0123456789"
unfolding append kept
oversized = refl

default_size : (new_data_buffer {W = ℕ} (negsuc 4 ∷ [])).max_size ≡ 65536
unfolding new_data_buffer
default_size = refl

told : (append (subscribe small note).0 (codes "x") 0 []).1 ≡ codes "x" ∷ []
unfolding append subscribe notify
told = refl

append_newest_example : (append small (codes "ghij") 0 []).0.buffer ≡ (
    if ltb 8 (length (codes "ghij"))
    then codes "ghij"
    else take_last 8 (codes "abcdef" ++ codes "ghij"))
append_newest_example = append_newest small (codes "ghij") 0 [] (omega arith)

abbrev calls : List Call
calls = appends (codes "g") 1 ∷ reads (pos 3) ∷ appends (codes "h") 2 ∷ []

run_fifo_example :
    (run (small, []) calls).1 ++ (run (small, []) calls).0.0.buffer ≡ codes "abcdefgh"
run_fifo_example = run_fifo (small, []) calls (tt, (tt, (tt, tt))) (omega arith, (omega arith, tt))
