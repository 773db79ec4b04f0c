-- ===== src/Tests/Upstream.antt =====
-- The subscription at the far daemon, after a call that was late.
use devvm.Prelude.{true, false, ◌≡◌, refl, List, [], ◌∷◌}
use devvm.Session.Upstream.{
  hooked, call_answered, call_slow, UpEvent, wants, syncs, lands, up_start, up_run, up_step,
  sync_upstream, sync_at, call_upstream, call_at, make_call, landed,
}
use devvm.Session.Upstream.Agrees.{sync_upstream-agrees}

-- A subscribe that outlives its bound, the subscriber's leaving, and the late effect.
abbrev late : List UpEvent
late = wants true ∷ syncs true call_slow ∷ wants false ∷ lands true ∷ []

sync_upstream-agrees_example :
    (sync_upstream false call_answered (up_run (up_start true hooked) late)).0.far
    ≡ (up_run (up_start true hooked) late).want
unfolding up_run up_step sync_upstream sync_at call_upstream call_at make_call landed
sync_upstream-agrees_example = sync_upstream-agrees true hooked late false call_answered refl refl
