-- ===== src/Examples/Filled.antt =====
-- A writer that fills its channel, in a channel that nothing reads.
use my_grpc_extensions.Prelude.{
  ℕ, ◌<◌, ◌≤◌, ◌≡◌, refl, List, [], ◌∷◌, ◌++◌, length, Option, none, some, Result, ok, finished,
  codes, ltb, Bool, Bool-cases, inl, inr, true, false, arith,
}
use my_grpc_extensions.Streams.ServerStreams.{SendTimeoutError, timed_out, appended}
use my_grpc_extensions.Streams.Writer.{
  Sender, Write, writes, produces, fails, new_writer, get_stream_producer, get_result, write_all,
  write_step, write, write_error, produce, unwrap_sent,
}
use my_grpc_extensions.Streams.Writer.Unread.{Unread, filled, contents, write_all-new_writer}

-- a channel with its room
abbrev Box : Type 0
Box = ℕ × List (Result ℕ ℕ)

abbrev put : Bool → Result ℕ ℕ → Box → Option SendTimeoutError × Box
put true m c = (none, (c.0, c.1 ++ m ∷ []))
put false m c = (some timed_out, c)

put-appended :
    (b : Bool) (m : Result ℕ ℕ) (c : Box) → (put b m c).1.1 ≡ appended (put b m c).0 m c.1
put-appended true m c = refl
put-appended false m c = refl

put-room : (b : Bool) (m : Result ℕ ℕ) (c : Box) → (put b m c).1.0 ≡ c.0
put-room true m c = refl
put-room false m c = refl

abbrev box : Sender (Result ℕ ℕ)
box = record {
  Chan = Box;
  channel = λ size. (size, []);
  accepted = λ c. c.1;
  send_timeout = λ m time c. put (ltb (length c.1) c.0) m c;
  send_within = λ m time c. (finished (ok tt), c);
  debug_error = λ e. codes "Timeout";
  debug_duration = λ time. codes "10s";
  debug_closed = codes "SendError";
  accepted-channel = λ size. refl;
  accepted-send_timeout = λ m time c. put-appended (ltb (length c.1) c.0) m c;
}

found_room :
    (m : Result ℕ ℕ) (c : Box) → length c.1 < c.0 → (put (ltb (length c.1) c.0) m c).0 ≡ none
found_room m c h = elim (Bool-cases (ltb (length c.1) c.0)) [
  | inl b ↦ rw b refl
  | inr b ↦ absurd (ground arith)
]

found_none :
    (m : Result ℕ ℕ) (c : Box)
    → c.0 ≤ length c.1
    → (put (ltb (length c.1) c.0) m c).0 ≡ some timed_out
found_none m c h = elim (Bool-cases (ltb (length c.1) c.0)) [
  | inl b ↦ absurd (ground arith)
  | inr b ↦ rw b refl
]

abbrev box_unread : Unread box
box_unread = record {
  capacity = λ c. c.0;
  capacity-channel = λ size h. refl;
  capacity-send_timeout = λ m time c. put-room (ltb (length c.1) c.0) m c;
  send_timeout-room = λ m time c h. found_room m c h;
  send_timeout-full = λ m time c h. found_none m c h;
}

abbrev four_calls : List (Write box)
four_calls = writes 1 ∷ fails 2 ∷ produces 3 ∷ writes 4 ∷ []

write_all-new_writer_example :
    contents box (write_all box four_calls (new_writer box 2)) ≡ filled box 2 four_calls
write_all-new_writer_example = write_all-new_writer box box_unread 2 four_calls (omega arith)

-- The last call panics.
fourth_panics : contents box (write_all box four_calls (new_writer box 2)) ≡ none
unfolding write_all write_step write write_error produce unwrap_sent new_writer
fourth_panics = refl

producer_shares : get_result box (get_stream_producer box (new_writer box 2)) ≡ (2, [])
unfolding get_result get_stream_producer new_writer
producer_shares = refl
