-- ===== src/Session/Upstream.antt =====
-- internal/session/daemon.go: the subscription of a hub machine's daemon at the far daemon
-- (`syncUpstream`, `resubscribeUpstream`, `callUpstream`). `far` is what the far daemon has, which
-- the code does not see; what a call comes to is an argument. A wait for an earlier call is an
-- event of its own, `lands`, before the call, or ends as busy. What `restore` does from the moment
-- it installs a transport until it has re-subscribed is one event, `relinks`.
pub mod Agrees
use devvm.Prelude.{Bool, true, false, not, ◌&&◌, List, [], ◌∷◌, Option, none, some, if◌then◌else◌}

-- The transport: none, one without the hook, or one with it (`subscriber`).
pub data Link : Type 0 where
  no_link : Link
  plain_link : Link
  hooked : Link

-- `upInflight`: no call, one that has not returned, or one that has.
pub data Inflight : Type 0 where
  idle : Inflight
  pending_call : Bool → Inflight
  returned : Inflight

pub record Upstream : Type 0 where
  pub hub_machine : Bool
  pub link : Link
  pub want : Bool
  pub up_on : Bool
  pub dirty : Bool
  pub inflight : Inflight
  pub far : Bool

-- A call of the hook: it is answered, refused without an effect, or outlives its bound.
pub data Call : Type 0 where
  call_answered : Call
  call_refused : Call
  call_slow : Call

pub data UpErr : Type 0 where
  upstream_busy : UpErr
  upstream_reconnecting : UpErr
  upstream_refused : UpErr
  upstream_slow : UpErr

-- The call itself, once no earlier one is in flight.
unfoldable pub make_call : Bool → Call → Upstream → Upstream × Option UpErr
make_call on call_answered u =
    (record u { up_on = on; dirty = false; inflight = idle; far = on }, none)
make_call on call_refused u = (record u { inflight = idle }, some upstream_refused)
make_call on call_slow u =
    (record u { dirty = true; inflight = pending_call on }, some upstream_slow)

-- `callUpstream`.
unfoldable pub call_at : Inflight → Bool → Call → Upstream → Upstream × Option UpErr
unfolding make_call
call_at (pending_call b) on c u = (record u { dirty = true }, some upstream_busy)
call_at idle on c u = make_call on c u
call_at returned on c u = make_call on c u

unfoldable pub call_upstream : Bool → Call → Upstream → Upstream × Option UpErr
unfolding call_at
call_upstream on c u = call_at u.inflight on c u

abbrev pub same_bool : Bool → Bool → Bool
same_bool true b = b
same_bool false b = not b

-- `syncUpstream`.
unfoldable pub sync_at : Link → Bool → Call → Upstream → Upstream × Option UpErr
unfolding call_upstream
sync_at no_link subscribing c u =
    if subscribing && u.hub_machine then (u, some upstream_reconnecting) else (u, none)
sync_at plain_link subscribing c u = (u, none)
sync_at hooked subscribing c u =
    if not u.dirty && same_bool u.want u.up_on && not (u.want && subscribing)
    then (u, none)
    else call_upstream u.want c u

unfoldable pub sync_upstream : Bool → Call → Upstream → Upstream × Option UpErr
unfolding sync_at
sync_upstream subscribing c u = sync_at u.link subscribing c u

-- `resubscribeUpstream`, on a fresh transport, which starts unsubscribed.
unfoldable pub resubscribe_at : Link → Call → Upstream → Upstream × Option UpErr
unfolding call_upstream
resubscribe_at no_link c u = (u, none)
resubscribe_at plain_link c u = (u, none)
resubscribe_at hooked c u = if not u.want then (u, none) else call_upstream true c u

unfoldable pub resubscribe : Link → Call → Upstream → Upstream × Option UpErr
unfolding resubscribe_at
resubscribe link c u =
    resubscribe_at link c
      (record u { link = link; up_on = false; dirty = false; inflight = idle; far = false })

-- The end of a call that outlived its bound: whether it had its effect. Its re-sync is a `syncs`.
unfoldable pub landed : Inflight → Bool → Upstream → Upstream
landed (pending_call b) took u = record u { inflight = returned; far = if took then b else u.far }
landed idle took u = u
landed returned took u = u

pub data UpEvent : Type 0 where
  wants : Bool → UpEvent
  syncs : Bool → Call → UpEvent
  lands : Bool → UpEvent
  relinks : Link → Call → UpEvent
  unlinks : UpEvent

unfoldable pub up_step : Upstream → UpEvent → Upstream
unfolding sync_upstream resubscribe landed
up_step u (wants b) = record u { want = b }
up_step u (syncs subscribing c) = (sync_upstream subscribing c u).0
up_step u (lands took) = landed u.inflight took u
up_step u (relinks link c) = (resubscribe link c u).0
up_step u unlinks = record u { link = no_link }

unfoldable pub up_run : Upstream → List UpEvent → Upstream
up_run u [] = u
up_run u (e ∷ es) = up_run (up_step u e) es

-- A daemon as it starts.
abbrev pub up_start : Bool → Link → Upstream
up_start hub link = record {
  hub_machine = hub;
  link = link;
  want = false;
  up_on = false;
  dirty = false;
  inflight = idle;
  far = false;
}
