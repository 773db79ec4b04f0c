-- ===== src/Session/Dispatch.antt =====
-- internal/session/daemon.go: `dispatch`, the one-shot requests; internal/session/daemon_session.go:
-- `sessionDispatch`, those of a session; internal/session/protocol.go: the lines that carry them.
-- A request is answered alone here. `none` is an add that waits for another binder of its slot.
-- The fields that are no part of the daemon's state (`Version`, `Since`, `Shim`) are left out, and
-- the JSON of a line with them; so are the fields that open a session (`Relay`, `Heartbeat`,
-- `Bridge`, `NoEvents`), whose decisions are in Session/Sessions, and events with their replies.
pub mod Confined
use devvm.Prelude.{
  ℕ, Bool, true, false, not, List, [], ◌∷◌, Option, none, some, leb, if◌then◌else◌, length,
}
use devvm.Session.Owner.{Owner, conf, ttl, connection}
use devvm.Session.Fwd.{Forward, wire, unheld}
use devvm.Session.Table.{Table}
use devvm.Session.Bind.{Forwarder}
use devvm.Session.Daemon.{
  Sess, State, up, reconnecting, Daemon, remove, Removed, absent, survives, gone, down,
}
use devvm.Session.Add.{AddErr, Answer, added_ok, add_failed}
use devvm.Session.Add.Binding.{alone, add_with}
use devvm.Session.Sessions.{subscribe, unsubscribe}

pub data Op : Type 0 where
  op_add : Op
  op_remove : Op
  op_list : Op
  op_ping : Op
  op_kick : Op
  op_stop : Op
  op_down : Op
  op_session : Op
  op_subscribe : Op
  op_unsubscribe : Op
  op_unknown : Op

-- The field `owner` of a request: one of the three kinds, none, or any other text.
pub data OwnerName : Type 0 where
  unnamed : OwnerName
  named_conf : OwnerName
  named_ttl : OwnerName
  named_connection : OwnerName
  misnamed : OwnerName

pub record Request : Type 0 where
  pub id : ℕ
  pub op : Op
  pub host : ℕ
  pub guest : ℕ
  pub exact : Bool
  pub owner : OwnerName

pub data Refused : Type 0 where
  add_refused : AddErr → Refused
  connection_owner : Refused
  unknown_owner : Refused
  needs_session : Refused
  already_session : Refused
  unknown_op : Refused
  not_upstream : Refused

pub record Response : Type 0 where
  pub id : ℕ
  pub err : Option Refused
  pub host : ℕ
  pub bumped : Bool
  pub pending : Bool
  pub state : Option State
  pub sessions : ℕ
  pub stopped : Bool
  pub forwards : List Forward

-- `Response{OK: true}`: an answer is an error exactly if it has one.
abbrev pub fine : Response
fine = record {
  id = 0;
  err = none;
  host = 0;
  bumped = false;
  pending = false;
  state = none;
  sessions = 0;
  stopped = false;
  forwards = [];
}

abbrev pub fails : Refused → Response
fails e = record fine { err = some e }

-- `list`: the forwards that somebody owns, by guest port.
unfoldable pub insert_forward : Forward → List Forward → List Forward
insert_forward w [] = w ∷ []
insert_forward w (x ∷ xs) = if leb w.guest x.guest then w ∷ x ∷ xs else x ∷ insert_forward w xs

unfoldable pub list : Table → List Forward
unfolding insert_forward
list [] = []
list (f ∷ fs) = let rest = list fs in if unheld f then rest else insert_forward (wire f) rest

unfoldable pub answer_add : Answer → Response
answer_add (add_failed e) = fails (add_refused e)
answer_add (added_ok r) = record fine { host = r.host; bumped = r.bumped; pending = r.pending }

-- `add`: an owner without an expiry, and no cap. Nothing runs between its sections here.
unfoldable pub dispatch_add :
    Owner → Request → Forwarder → Bool → Daemon → Option (Daemon × Response)
unfolding answer_add
dispatch_add own q forward dead d =
    elim (add_with
      (record {
        pref = q.host;
        guest = q.guest;
        exact = q.exact;
        own = own;
        expires = 0;
        capped = false;
      })
      forward dead alone d) [ none ↦ none | some (e, a) ↦ some (e, answer_add a) ]

unfoldable pub answer_remove : Removed → Response
answer_remove absent = fine
answer_remove (survives w) = record fine { forwards = w ∷ [] }
answer_remove gone = fine

unfoldable pub dispatch_remove : Owner → Request → Daemon → Daemon × Response
unfolding answer_remove
dispatch_remove own q d = let r = remove q.guest own d in (r.0, answer_remove r.1)

unfoldable pub remove_named : OwnerName → Request → Daemon → Daemon × Response
unfolding dispatch_remove
remove_named unnamed q d = dispatch_remove conf q d
remove_named named_conf q d = dispatch_remove conf q d
remove_named named_ttl q d = dispatch_remove ttl q d
remove_named named_connection q d = (d, fails connection_owner)
remove_named misnamed q d = (d, fails unknown_owner)

unfoldable pub dispatch_down : Daemon → Daemon × Response
unfolding list
dispatch_down d =
    let r = down d in
    let e = r.0 in
    if r.1
    then (e, record fine { stopped = true })
    else (e, record fine { forwards = list e.forwards; sessions = length e.sessions })

unfoldable pub status : Daemon → Response
status d = record fine { state = some d.state; sessions = length d.sessions }

-- `dispatch`, but for the copy of the id.
unfoldable pub dispatch_op : Op → Request → Forwarder → Bool → Daemon → Option (Daemon × Response)
unfolding dispatch_add remove_named dispatch_down status list
dispatch_op op_add q forward dead d = dispatch_add conf q forward dead d
dispatch_op op_remove q forward dead d = some (remove_named q.owner q d)
dispatch_op op_down q forward dead d = some (dispatch_down d)
dispatch_op op_list q forward dead d = some (d, record (status d) { forwards = list d.forwards })
dispatch_op op_ping q forward dead d = some (d, status d)
dispatch_op op_kick q forward dead d = some (record d { kicked = true }, fine)
dispatch_op op_stop q forward dead d = some (record d { stopping = true }, fine)
dispatch_op op_subscribe q forward dead d = some (d, fails needs_session)
dispatch_op op_unsubscribe q forward dead d = some (d, fails needs_session)
dispatch_op op_session q forward dead d = some (d, fails unknown_op)
dispatch_op op_unknown q forward dead d = some (d, fails unknown_op)

-- A subscribe is acknowledged where the transport's hook, the argument `upstream`, did not fail.
unfoldable pub session_op :
    Op → Sess → Request → Forwarder → Bool → Bool → Daemon → Option (Daemon × Response)
unfolding dispatch_add dispatch_remove dispatch_op
session_op op_add s q forward dead upstream d = dispatch_add (connection s.id) q forward dead d
session_op op_remove s q forward dead upstream d = some (dispatch_remove (connection s.id) q d)
session_op op_subscribe s q forward dead upstream d =
    some (subscribe s d, if upstream then fine else fails not_upstream)
session_op op_unsubscribe s q forward dead upstream d = some (unsubscribe s d, fine)
session_op op_session s q forward dead upstream d = some (d, fails already_session)
session_op op_down s q forward dead upstream d = dispatch_op op_down q forward dead d
session_op op_list s q forward dead upstream d = dispatch_op op_list q forward dead d
session_op op_ping s q forward dead upstream d = dispatch_op op_ping q forward dead d
session_op op_kick s q forward dead upstream d = dispatch_op op_kick q forward dead d
session_op op_stop s q forward dead upstream d = dispatch_op op_stop q forward dead d
session_op op_unknown s q forward dead upstream d = dispatch_op op_unknown q forward dead d

abbrev pub with_id : ℕ → Option (Daemon × Response) → Option (Daemon × Response)
with_id i none = none
with_id i (some (d, r)) = some (d, record r { id = i })

-- `dispatch` and `sessionDispatch`, with the request's id on the answer.
unfoldable pub dispatch : Request → Forwarder → Bool → Daemon → Option (Daemon × Response)
unfolding dispatch_op
dispatch q forward dead d = with_id q.id (dispatch_op q.op q forward dead d)

unfoldable pub session_dispatch :
    Sess → Request → Forwarder → Bool → Bool → Daemon → Option (Daemon × Response)
unfolding session_op
session_dispatch s q forward dead upstream d =
    with_id q.id (session_op q.op s q forward dead upstream d)
