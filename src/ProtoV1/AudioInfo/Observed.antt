-- ===== src/ProtoV1/AudioInfo/Observed.antt =====
-- proto/protov1/audio_info_event.go, handler.go: the tracker as the observer of a handler's audio, as
-- Observe makes it. The state is that of the audio, `A`, and the tracker.
use rtvbp_go.Common.{ℕ, ◌≡◌, refl, ap, List, Option, none, some}
use rtvbp_go.Proto.Errors.{Error}
use rtvbp_go.Audio.Observer.{
  HandlerAudio, AudioStreamObserver, notify, notify_success, observable_audio,
}
use rtvbp_go.ProtoV1.AudioInfo.{Tracker, on_read, on_write}

module _ {A : Type 0} where
  -- asObserver
  unfoldable pub as_observer : AudioStreamObserver (A × Tracker)
  unfolding on_read on_write
  as_observer = record {
    on_read = some (λ n (a, t). (a, on_read n t));
    on_read_error = none;
    on_write = some (λ n (a, t). (a, on_write n t));
    on_write_error = none;
    on_buffer_cleared = none;
  }

  -- The audio of a handler, with a tracker beside its state.
  unfoldable pub beside : HandlerAudio A → HandlerAudio (A × Tracker)
  beside ha = record {
    read = λ n (a, t). let (r, a') = ha.read n a in (r, (a', t));
    write = λ bs (a, t). let (r, a') = ha.write bs a in (r, (a', t));
    clear_read_buffer = λ (a, t). let (r, a') = ha.clear_read_buffer a in (r, (a', t));
  }

  counted_read :
      (f : Option Error) (n : ℕ) (a : A) (t : Tracker)
      → notify f none (some (λ m (b, u). (b, on_read m u))) n (a, t) ≡ (a, on_read n t)
  counted_read none n a t = refl
  counted_read (some e) n a t = refl

  counted_write :
      (f : Option Error) (n : ℕ) (a : A) (t : Tracker)
      → notify f none (some (λ m (b, u). (b, on_write m u))) n (a, t) ≡ (a, on_write n t)
  counted_write none n a t = refl
  counted_write (some e) n a t = refl

  uncounted_clear : (f : Option Error) (n : ℕ) (s : A × Tracker) → notify_success f none n s ≡ s
  uncounted_clear none n s = refl
  uncounted_clear (some e) n s = refl

  -- A call on the observed audio gives what the audio itself gives, and leaves it in the same state. The
  -- tracker counts what a read and a write report, with an error or without, and no clearing.
  pub observable_audio-counts :
      (ha : HandlerAudio A) (a : A) (t : Tracker)
      → ((n : ℕ)
          → (observable_audio as_observer (beside ha)).read n (a, t)
            ≡ ((ha.read n a).0, ((ha.read n a).1, on_read (ha.read n a).0.count t)))
        × ((bs : List ℕ)
            → (observable_audio as_observer (beside ha)).write bs (a, t)
              ≡ ((ha.write bs a).0, ((ha.write bs a).1, on_write (ha.write bs a).0.count t)))
        × ((observable_audio as_observer (beside ha)).clear_read_buffer (a, t)
            ≡ ((ha.clear_read_buffer a).0, ((ha.clear_read_buffer a).1, t)))
  unfolding observable_audio as_observer beside
  observable_audio-counts ha a t = (
    (λ n. ap (λ s. ((ha.read n a).0, s)) (counted_read _ _ _ t)),
    (λ bs. ap (λ s. ((ha.write bs a).0, s)) (counted_write _ _ _ t)),
    ap (λ s. ((ha.clear_read_buffer a).0, s)) (uncounted_clear _ _ _),
  )
