-- ===== src/Tests/Channels.antt =====
-- An audio channel over a buffer without a bound, a copy into a list, and an observer that counts.
use rtvbp_go.Common.{
  ℕ, ◌+◌, ◌≡◌, refl, ap, List, [], ◌∷◌, ◌++◌, none, some, length, take, drop, take-append-drop, sym,
}
use rtvbp_go.Common.Act.{ok, Act}
use rtvbp_go.Proto.Errors.{Error, sentinel, eof, msg}
use rtvbp_go.Audio.Copy.{
  ReadResult, is_reset, copy_with_buf, copied, copy_end, IsSink, copy_with_buf-copied,
}
use rtvbp_go.Audio.Channel.{
  RingBuffer, IsRing, session_side, transport_side, Call, reads, writes, clears, closes, run, start,
  step, read, write, close, clear_read_buffer, new_audio_channel, run-crosses,
}
use rtvbp_go.Audio.Observer.{HandlerAudio, AudioStreamObserver, observable_audio}

take-length : (xs : List ℕ) → take (length xs) xs ≡ xs
take-length [] = refl
take-length (x ∷ xs) = ap (λ r. x ∷ r) (take-length xs)

abbrev ring : RingBuffer (List ℕ)
ring = record {
  make = λ n. [];
  read = λ n b. ((take n b, none), drop n b);
  write = λ bs b. ((length bs, none), b ++ bs);
  close_with_error = λ e b. b;
  count = length;
  reset = λ b. [];
}

ring-IsRing : IsRing ring (λ b. b)
ring-IsRing = record {
  make_empty = λ n. refl;
  read_front = λ n b. sym (take-append-drop n b);
  write_back = λ bs b. ap (λ r. b ++ r) (sym (take-length bs));
  close_keeps = λ e b. refl;
  count_all = λ b. refl;
  reset_empty = λ b. refl;
}

abbrev calls : List Call
calls =
    writes session_side (1 ∷ 2 ∷ 3 ∷ [])
    ∷ writes transport_side (9 ∷ [])
    ∷ reads transport_side 2
    ∷ clears session_side
    ∷ closes session_side
    ∷ []

channel_tests :
    ((run ring (λ b. b) calls (start ring (λ b. b) 8)).gone transport_side ≡ 1 ∷ 2 ∷ [])
    × ((run ring (λ b. b) calls (start ring (λ b. b) 8)).gone session_side ≡ 9 ∷ [])
    × ((run ring (λ b. b) calls (start ring (λ b. b) 8)).channel.transport_buffer ≡ 3 ∷ [])
unfolding run start step read write close clear_read_buffer new_audio_channel
channel_tests = (refl, refl, refl)

run-crosses_example :
    (run ring (λ b. b) calls (start ring (λ b. b) 8)).taken session_side
    ≡ (run ring (λ b. b) calls (start ring (λ b. b) 8)).gone transport_side
      ++ (run ring (λ b. b) calls (start ring (λ b. b) 8)).channel.transport_buffer
run-crosses_example = run-crosses ring (λ b. b) ring-IsRing calls 8 session_side

abbrev append_to : List ℕ → Act Error (List ℕ) ℕ
append_to bs w = (ok (length bs), w ++ bs)

append_to-IsSink : IsSink append_to (λ w. w)
append_to-IsSink = record { takes = λ bs w. refl; appends = λ bs w. refl }

abbrev results : List ReadResult
results =
    record { got = 1 ∷ 2 ∷ []; failure = none }
    ∷ record { got = 5 ∷ []; failure = some (msg "reset called") }
    ∷ record { got = 3 ∷ []; failure = none }
    ∷ record { got = 4 ∷ []; failure = some (sentinel eof) }
    ∷ []

copied_run : copy_with_buf append_to results [] ≡ (ok tt, 1 ∷ 2 ∷ 3 ∷ [])
unfolding copy_with_buf is_reset
copied_run = refl

copy_with_buf-copied_example :
    ((copy_with_buf append_to results []).0 ≡ copy_end results)
    × ((copy_with_buf append_to results []).1 ≡ copied results)
copy_with_buf-copied_example = copy_with_buf-copied append_to (λ w. w) append_to-IsSink results []

-- The state counts what the observer is told.
abbrev failing : HandlerAudio ℕ
failing = record {
  read = λ n s. (record { count = 4; bytes = []; failure = some (msg "broken") }, s);
  write = λ bs s. (record { count = length bs; bytes = []; failure = none }, s);
  clear_read_buffer = λ s. (record { count = 0; bytes = []; failure = none }, s);
}

abbrev counting : AudioStreamObserver ℕ
counting = record {
  on_read = some (λ n s. s + n);
  on_read_error = none;
  on_write = some (λ n s. s + n);
  on_write_error = none;
  on_buffer_cleared = none;
}

failed_read_counted : ((observable_audio counting failing).read 8 0).1 ≡ 4
unfolding observable_audio
failed_read_counted = refl
