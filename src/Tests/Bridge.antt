-- ===== src/Tests/Bridge.antt =====
-- The bridge's, the sessions' and the one-shot requests' theorems at concrete daemons.
use devvm.Prelude.{ℕ, true, false, ◌≡◌, ◌⊎◌, refl, [], ◌∷◌, Option, none, some, if◌then◌else◌, List}
use Prim.Native.Nat.{compare, Ordering}
use devvm.Text.{Text, codes}
use devvm.Session.Owner.{
  conf, ttl, connection, same, is_conf, add_owner, expiry_of, put_owner, reject_owners,
}
use devvm.Session.Fwd.{Fwd}
use devvm.Session.Table.{find, put, held}
use devvm.Session.Bind.{Forwarder, opened, refused, port_busy, bind, bind_from}
use devvm.Session.System.{
  installs, rebinds_from, finishes, comes_up, opens_session, subscribes, adds, run, step, start,
  take_task, Event, Sys,
}
use devvm.Session.Daemon.{
  plain, settle, session, detach_all, drop_owners, Sess, Daemon, new_daemon, down, on_dead,
  owned_by_relay,
}
use devvm.Session.Add.{AddReq, add_section, add_at, add_old, add_new, ephemeral_room}
use devvm.Session.Add.Binding.{Meanwhile, alone, add_with, finish_add, reread, bind_slot, adopt}
use devvm.Session.Rebind.{batch, all_relays, claim_all, rebind_pending}
use devvm.Session.Rebind.Ends.{Returns, rebind_pending-ends}
use devvm.Session.Sessions.{open_session, subscribe, close_session}
use devvm.Session.Holding.{holding, close_session-holding, down-holding, on_dead-holding}
use devvm.Session.Dispatch.{Request, op_remove, named_ttl, session_dispatch}
use devvm.Session.Dispatch.Confined.{IsKept, session_dispatch-IsKept}
use devvm.Session.RateLimit.{allow_open}
use devvm.Session.Bridge.{Bridged, bridged, bridge_request, bridge_answer, bridge_done, bridge_bind}
use devvm.Session.Bridge.Open.{answers, BridgeEvent, Heard, bridge_open}
use devvm.Session.Bridge.Url.{Parser, external, http, localhost, sanitize, classify}
use devvm.Session.Bridge.Url.Sound.{IsOfRaw, classify-IsOfRaw}
use devvm.Session.Bridge.Confined.{IsStill, IsLocal, NamesPort, bridge_open-IsStill}
use devvm.Session.Bridge.Exact.{AtClaim, LeavesUnbound}
use devvm.Session.Bridge.InFlight.{IsInFlight, bridge_bind-exact}
use devvm.Session.Daemon.{is_up}
use devvm.Session.Bridge.Subscriber.{notice, browser_open, open_on_host}
use devvm.Session.Bridge.Subscriber.Safe.{IsAnswer, IsPassedOn, open_on_host-IsAnswer}
use devvm.Tests.{some_busy, opened_at, plain_wire}

-- Reads one authorize URL, whose callback is localhost:3005; the other texts are that callback.
abbrev one_callback : Parser
one_callback [] = some (record {
  scheme = http;
  hostname = localhost;
  port = 51 ∷ 48 ∷ 48 ∷ 53 ∷ [];
  redirect_uri = [];
})
one_callback (c ∷ s) =
    some (record { scheme = http; hostname = 97 ∷ []; port = []; redirect_uri = [] })

classify-IsOfRaw_example : IsOfRaw one_callback (one_callback []) (classify one_callback [])
classify-IsOfRaw_example = classify-IsOfRaw one_callback []

abbrev someone : Sess
someone = record { id = 1; relay = false }

-- A local session that subscribes.
abbrev attended : Daemon
attended = record (new_daemon plain_wire) {
  sessions = someone ∷ [];
  subs = someone ∷ [];
  next_conn = 1;
}

abbrev says_yes : BridgeEvent → Heard
says_yes ev = answers (121 ∷ [])

bridge_open-IsStill_example :
    IsStill attended.forwards
      (bridge_open one_callback [] 5 some_busy false alone says_yes attended)
    ⊎ ((sanitize [] ≡ true)
        × ((allow_open 5 attended).1 ≡ true)
        × IsLocal attended.subs
        × NamesPort (classify one_callback [])
        × (is_up attended.state ≡ true))
bridge_open-IsStill_example =
    bridge_open-IsStill one_callback [] 5 some_busy false alone says_yes attended

-- A forward of the conf, a ttl and the session, and the same daemon after a redirect to its port.
abbrev shared : Fwd
shared = record {
  id = 0;
  host = 3005;
  guest = 3005;
  exact = true;
  closer = some (opened_at 3005);
  binding = false;
  owners = (conf, 0) ∷ (ttl, 77) ∷ (connection 1, 0) ∷ [];
  v6 = true;
}

abbrev sharing : Daemon
sharing = record attended { forwards = shared ∷ [] }

abbrev refreshed : Daemon
refreshed = record attended {
  forwards =
      record shared { owners = (conf, 0) ∷ (ttl, 600000000005) ∷ (connection 1, 0) ∷ [] } ∷ [];
}

-- A session subscribes. While the callback's port is bound for it, another add comes and ends.
abbrev attending : List Event
attending = opens_session false ∷ subscribes someone ∷ []

abbrev other_add : AddReq
other_add = record {
  pref = 4000;
  guest = 80;
  exact = false;
  own = conf;
  expires = 0;
  capped = false;
}

abbrev other_work : List Event
other_work = adds other_add ∷ finishes 0 some_busy false ∷ []

abbrev asked : Daemon
asked = (run (start (plain true)) attending).daemon

abbrev callback : AddReq
callback = bridge_request 3005 true 5 someone

abbrev by_then : Sys
by_then = run (run (start (plain true)) attending) (adds callback ∷ other_work)

abbrev kick : Daemon → Daemon
kick d = record d { kicked = true }

abbrev amid_work : Meanwhile
amid_work = record alone { binding = λ d. by_then.daemon; refused = kick }

-- While the bind runs, the transport dies. The adoption is refused, the next transport comes, and
-- its binder takes the slot, which is not exact yet, to the next port before the second read: the
-- answer for the redirect is that other port.
abbrev taken_to_3005 : Forwarder
taken_to_3005 h g = elim (compare h 3006) [
  | Ordering.lt ↦ refused port_busy
  | _ ↦ opened (record { transport = 1; serial = h; v6 = true })
]

abbrev reconnects : Daemon → Daemon
reconnects d =
    (run (record { daemon = d; tasks = []; next_tr = 1 })
      (installs (plain true)
        ∷ rebinds_from []
        ∷ finishes 0 taken_to_3005 false
        ∷ comes_up
        ∷ [])).daemon

abbrev answer_only : Option (Daemon × Bridged) → Option Bridged
answer_only none = none
answer_only (some (d, b)) = some b

redirect_moves :
    answer_only (
      bridge_bind 3005 true false someone 5 some_busy false
        (record alone { binding = on_dead; refused = reconnects })
        attended)
    ≡ some (bridged 3006)
unfolding bridge_bind bridge_done bridge_answer bridge_request add_with add_section add_at add_new
    find put finish_add new_daemon reread bind_slot bind bind_from adopt settle held ephemeral_room
    session run step on_dead detach_all drop_owners reject_owners take_task batch all_relays
    claim_all
redirect_moves = refl

redirect_shares :
    bridge_bind 3005 true false someone 5 some_busy false alone sharing
    ≡ some (refreshed, bridged 3005)
unfolding bridge_bind bridge_done bridge_answer bridge_request add_with add_section add_at add_old
    find put add_owner expiry_of put_owner finish_add new_daemon
redirect_shares = refl

abbrev bound_amid : Option (Daemon × Bridged)
bound_amid = bridge_bind 3005 true false someone 5 some_busy false amid_work asked

abbrev daemon_of : Option (Daemon × Bridged) → Daemon
daemon_of none = asked
daemon_of (some (d, b)) = d

still_binding : IsInFlight (add_section callback asked) by_then.tasks
unfolding bridge_bind bridge_done bridge_answer bridge_request add_with add_section add_at add_new
    find put finish_add new_daemon reread bind_slot bind bind_from adopt settle held ephemeral_room
    session run step start open_session subscribe take_task
still_binding = (0, [], refl)

nobody_binds : AtClaim (λ c x. LeavesUnbound c.ref amid_work.refused) (add_section callback asked)
unfolding bridge_bind bridge_done bridge_answer bridge_request add_with add_section add_at add_new
    find put finish_add new_daemon reread bind_slot bind bind_from adopt settle held ephemeral_room
    session run step start open_session subscribe take_task
nobody_binds = λ d h. h

redirect_binds : bound_amid ≡ some (daemon_of bound_amid, bridged 3005)
unfolding bridge_bind bridge_done bridge_answer bridge_request add_with add_section add_at add_new
    find put finish_add new_daemon reread bind_slot bind bind_from adopt settle held ephemeral_room
    session run step start open_session subscribe take_task
redirect_binds = refl

bridge_bind-exact_example : ◌≡◌ {A = ℕ} 3005 3005
bridge_bind-exact_example =
    bridge_bind-exact (plain true) attending other_work 3005 false someone 5 some_busy false
      amid_work {e = daemon_of bound_amid} {host = 3005} still_binding nobody_binds redirect_binds

close_session-holding_example :
    holding 3005 ttl (close_session 1 sharing).forwards
    ≡ (if same ttl (connection 1) then none else holding 3005 ttl sharing.forwards)
close_session-holding_example = close_session-holding 1 3005 ttl sharing (tt, tt)

down-holding_example :
    holding 3005 ttl (down sharing).0.forwards
    ≡ (if is_conf ttl then none else holding 3005 ttl sharing.forwards)
down-holding_example = down-holding 3005 ttl sharing (tt, tt)

on_dead-holding_example :
    holding 3005 ttl (on_dead sharing).forwards
    ≡ (if owned_by_relay sharing.sessions ttl 0 then none else holding 3005 ttl sharing.forwards)
on_dead-holding_example = on_dead-holding 3005 ttl sharing (tt, tt)

-- A session that asks to remove the forward that a ttl holds too.
abbrev wants_gone : Request
wants_gone = record {
  id = 9;
  op = op_remove;
  host = 0;
  guest = 3005;
  exact = false;
  owner = named_ttl;
}

session_dispatch-IsKept_example :
    IsKept 3005 ttl sharing.forwards
      (session_dispatch someone wants_gone some_busy false true sharing)
session_dispatch-IsKept_example =
    session_dispatch-IsKept 3005 ttl someone wants_gone some_busy false true sharing (tt, tt) refl
      refl refl

-- The same daemon between transports, and the next transport.
rebind_pending-ends_example : Returns (rebind_pending true plain_wire some_busy (on_dead sharing))
rebind_pending-ends_example = rebind_pending-ends true plain_wire some_busy (on_dead sharing)

-- A URL with an escape character in it, on a host without a browser.
abbrev escaping : BridgeEvent
escaping = record { url = codes "http://a/\u{1b}[2J"; kind = external; guest = 0; bound = 0 }

abbrev never_starts : Text → Text → Option Text
never_starts o url = none

abbrev same_host : Text → Text → Text
same_host raw host = raw

shown_safely :
    (open_on_host one_callback same_host (browser_open none never_starts) (some escaping)).1
    ≡ notice (codes "no browser opener") (codes "http://a/?[2J")
unfolding open_on_host browser_open
shown_safely = refl

open_on_host-IsAnswer_example :
    IsAnswer false true
      (open_on_host one_callback same_host (browser_open none never_starts) (some escaping)).0
      (open_on_host one_callback same_host (browser_open none never_starts) (some escaping)).1
    × IsPassedOn
        (some escaping)
        (open_on_host one_callback same_host (browser_open none never_starts) (some escaping)).0
unfolding open_on_host browser_open
open_on_host-IsAnswer_example =
    open_on_host-IsAnswer one_callback same_host none never_starts (some escaping)
