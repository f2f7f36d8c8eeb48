-- ===== src/ProtoV1/AudioInfo.antt =====
-- proto/protov1/audio_info_event.go: the tracker of audio bytes. The counters are int64, which wrap
-- modulo 2^64; a count that is read or written is not negative. The rates per second are floats, and
-- are left out.
pub mod Observed
use rtvbp_go.Common.{ℕ, ◌+◌, ◌%◌, ◌^◌, Bool, true, List, [], ◌∷◌, ◌++◌, ◌≡◌, arith, if◌then◌else◌}

abbrev pub word : ℕ
word = 2 ^ 64

-- audioInfoItem
pub record Item : Type 0 where
  pub bytes : ℕ
  pub bytes_total : ℕ

pub record AudioInfoEvent : Type 0 where
  pub read : Item
  pub write : Item

-- audioInfoTracker: `w` and `r` count since the last tick, `wt` and `rt` before it. `events` are the
-- events that were notified, oldest first; `attached` says that the handler's shc is set.
pub record Tracker : Type 0 where
  pub w : ℕ
  pub wt : ℕ
  pub r : ℕ
  pub rt : ℕ
  pub attached : Bool
  pub events : List AudioInfoEvent

-- asObserver: OnRead and OnWrite
unfoldable pub on_read : ℕ → Tracker → Tracker
on_read n t = record t { r = (t.r + n) % word }

unfoldable pub on_write : ℕ → Tracker → Tracker
on_write n t = record t { w = (t.w + n) % word }

-- audioInfoTracker.dispatch
unfoldable pub dispatch : Tracker → Tracker
dispatch t =
    let wt' = (t.wt + t.w) % word in
    let rt' = (t.rt + t.r) % word in
    let evt : AudioInfoEvent = record {
      read = record { bytes = t.r; bytes_total = rt' };
      write = record { bytes = t.w; bytes_total = wt' };
    } in
    record t {
      w = 0;
      wt = wt';
      r = 0;
      rt = rt';
      events = if t.attached then t.events ++ evt ∷ [] else t.events;
    }

-- A call on the tracker; `attach` is the end of sessionInitialize.
pub data Call : Type 0 where
  reads writes : ℕ → Call
  ticks attach : Call

pub step : Call → Tracker → Tracker
unfolding on_read on_write dispatch
step (reads n) t = on_read n t
step (writes n) t = on_write n t
step ticks t = dispatch t
step attach t = record t { attached = true }

pub run : List Call → Tracker → Tracker
run [] t = t
run (c ∷ cs) t = run cs (step c t)

-- The bytes that a list of calls has read and has written.
abbrev pub bytes_read : List Call → ℕ
bytes_read [] = 0
bytes_read (reads n ∷ cs) = n + bytes_read cs
bytes_read (_ ∷ cs) = bytes_read cs

abbrev pub bytes_written : List Call → ℕ
bytes_written [] = 0
bytes_written (writes n ∷ cs) = n + bytes_written cs
bytes_written (_ ∷ cs) = bytes_written cs

-- No byte is lost or counted twice by the ticks, also before the handler is attached: modulo 2^64,
-- the counters add up to what they were and the bytes of the calls.
pub run-conserves :
    (cs : List Call) (t : Tracker)
    → ((((run cs t).rt + (run cs t).r) % word) ≡ ((t.rt + t.r + bytes_read cs) % word))
      × ((((run cs t).wt + (run cs t).w) % word) ≡ ((t.wt + t.w + bytes_written cs) % word))
unfolding run step
run-conserves [] t = omega arith
run-conserves (reads n ∷ cs) t = omega (arith, run-conserves cs (step (reads n) t))
run-conserves (writes n ∷ cs) t = omega (arith, run-conserves cs (step (writes n) t))
run-conserves (ticks ∷ cs) t = omega (arith, run-conserves cs (step ticks t))
run-conserves (attach ∷ cs) t = run-conserves cs (step attach t)
