-- ===== src/Session/Rebind.antt =====
-- internal/session/daemon.go: `rebindPending`, and `restore` and `retryPending`, which share it.
-- The runs here are alone: nothing takes `d.mu` between their critical sections. `forward` is one
-- function for a run, as each guest port is bound at most once in it.
pub mod Ends
pub mod Slots
pub mod Live
pub mod Restore
pub mod Carries
use devvm.Prelude.{
  ℕ, zero, suc, Bool, true, false, not, ◌&&◌, ◌||◌, List, [], ◌∷◌, ◌++◌, Option, none, some, leb,
  ◌==◌, if◌then◌else◌, is_empty,
}
use devvm.Session.Owner.{conf, ttl, connection, Owners}
use devvm.Session.Fwd.{Fwd, is_none, unheld, start_binding}
use devvm.Session.Table.{Table, Ref, ref_of}
use devvm.Session.Bind.{Forwarder, BindRes, bound, unbound, bind, contention}
use devvm.Session.Daemon.{Transport, up, Sess, is_up, Daemon, settle, expire_ttl}
use devvm.Session.Add.{is_local}
use devvm.Session.Add.Binding.{adopt}

-- `relayOnlyLocked`: no owner is the conf, a ttl, or a local session.
unfoldable pub all_relays : List Sess → Owners → Bool
all_relays ss [] = true
all_relays ss ((connection c, e) ∷ m) = not (is_local ss c) && all_relays ss m
all_relays ss ((conf, e) ∷ m) = false
all_relays ss ((ttl, e) ∷ m) = false

abbrev pub relay_only : List Sess → Fwd → Bool
relay_only ss f = not (unheld f) && all_relays ss f.owners

-- `job`.
pub record Job : Type 0 where
  pub ref : Ref
  pub host : ℕ
  pub exact : Bool

abbrev pub job_of : Fwd → Job
job_of f = record { ref = ref_of f; host = f.host; exact = f.exact }

abbrev pub member : ℕ → List ℕ → Bool
member x [] = false
member x (y ∷ ys) = y == x || member x ys

-- What a batch takes: pending, no binder's, not tried in this run, and not only a relay's.
abbrev pub rebinds : List Sess → List ℕ → Fwd → Bool
rebinds ss tried f =
    is_none f.closer && not f.binding && not (member f.id tried) && not (relay_only ss f)

unfoldable pub claim_all : List Sess → List ℕ → Table → Table
claim_all ss tried [] = []
claim_all ss tried (f ∷ fs) =
    (if rebinds ss tried f then start_binding f else f) ∷ claim_all ss tried fs

-- The sort of the batch, by guest port.
unfoldable pub insert_job : Job → List Job → List Job
insert_job j [] = j ∷ []
insert_job j (k ∷ ks) = if leb j.ref.guest k.ref.guest then j ∷ k ∷ ks else k ∷ insert_job j ks

unfoldable pub batch : List Sess → List ℕ → Table → List Job
unfolding insert_job
batch ss tried [] = []
batch ss tried (f ∷ fs) =
    let rest = batch ss tried fs in if rebinds ss tried f then insert_job (job_of f) rest else rest

unfoldable pub settle_all : List Job → Table → Table
settle_all [] fs = fs
settle_all (j ∷ js) fs = settle_all js (settle j.ref fs)

-- The state after a batch, how many forwards it bound, and whether it went to its end.
pub record Rebound : Type 0 where
  pub daemon : Daemon
  pub count : ℕ
  pub finished : Bool

job_result : Transport → Job → BindRes → Daemon → Daemon × Bool
job_result tr j (bound host c b) d = adopt tr.id j.ref host c j.exact d
job_result tr j (unbound e) d = (record d { forwards = settle j.ref d.forwards }, false)

-- `restore` stops at a failure that is no port contention.
fatal : Bool → BindRes → Bool
fatal fail_fast (bound h c b) = false
fatal fail_fast (unbound e) = fail_fast && not (contention e)

unfoldable pub run_batch : Bool → Transport → Forwarder → List Job → ℕ → Daemon → Rebound
unfolding job_result fatal settle_all
run_batch fail_fast tr forward [] n d = record { daemon = d; count = n; finished = true }
run_batch fail_fast tr forward (j ∷ js) n d =
    let res = bind (some forward) j.host j.ref.guest j.exact in
    let r = job_result tr j res d in
    let rest = run_batch fail_fast tr forward js (if r.1 then suc n else n) r.0 in
    if fatal fail_fast res
    then record {
      daemon = record r.0 { forwards = settle_all js (r.0).forwards };
      count = n;
      finished = false;
    }
    else rest

abbrev pub ids : List Job → List ℕ
ids [] = []
ids (j ∷ js) = j.ref.id ∷ ids js

-- The batches, on fuel; `none` when it runs out.
unfoldable pub rebind_rounds :
    ℕ → Bool → Transport → Forwarder → List ℕ → ℕ → Daemon → Option Rebound
unfolding claim_all batch run_batch
rebind_rounds zero fail_fast tr forward tried n d = none
rebind_rounds (suc fuel) fail_fast tr forward tried n d =
    let js = batch d.sessions tried d.forwards in
    let claimed = record d { forwards = claim_all d.sessions tried d.forwards } in
    let r = run_batch fail_fast tr forward js n claimed in
    let more = rebind_rounds fuel fail_fast tr forward (ids js ++ tried) r.count r.daemon in
    if is_empty js
    then some (record { daemon = d; count = n; finished = true })
    else if r.finished
    then more
    else some r

-- Alone, the second batch is empty.
unfoldable pub rebind_pending : Bool → Transport → Forwarder → Daemon → Option Rebound
unfolding rebind_rounds
rebind_pending fail_fast tr forward d = rebind_rounds 2 fail_fast tr forward [] 0 d

-- `restore`, up to the upstream hook: whether the transport carries the forwards.
restored : Rebound → Daemon × Bool
restored r = let d = r.daemon in if r.finished then (record d { state = up }, true) else (d, false)

unfoldable pub restore : ℕ → Transport → Forwarder → Daemon → Option (Daemon × Bool)
unfolding rebind_pending restored
restore now tr forward d =
    let e = record (expire_ttl now d) { tr = some tr } in
    elim (rebind_pending true tr forward e) [ none ↦ none | some r ↦ some (restored r) ]

-- `retryPending`: nothing happens unless the transport is up.
unfoldable pub retry_pending : Forwarder → Daemon → Option Daemon
unfolding rebind_pending
retry_pending forward d = elim (if is_up d.state then d.tr else none) [
  | none ↦ some d
  | some tr ↦ elim (rebind_pending false tr forward d) [ none ↦ none | some r ↦ some r.daemon ]
]
