-- ===== src/Lib.antt =====
-- Verification of devvm: the per-machine session daemon, and on the host the names, devvm.toml
-- with the edits of it, the saved forwards with the commands that edit them, the templates, and
-- the cache of remote boxes' states.
--
-- devvm's CLI is a thin client. For each machine one daemon (internal/session) holds the
-- connection to the guest, the transport, and the port forwards over it. Clients talk to the
-- daemon in JSON lines on a unix socket: a one-shot request, or a session that stays open and may
-- hold forwards of its own. The transport can die at any time; the daemon then keeps its forwards
-- as pending, and re-binds them on the next one. The guest can ask the daemon to open a URL, which
-- may forward the loopback port that the URL names (the browser bridge). The CLI keeps on the
-- host, per machine, the forwards that it asks the daemon for (internal/config, internal/cli);
-- what a new box looks like is a template of the host's devvm.toml, in layers (internal/config),
-- and the last word on whether a remote box answers is a small file (internal/reach).
--
-- The parts, by file and by the code that they model:
-- - Session/Owner, Session/Fwd, Session/Table: one forward and who holds it (owner, ownerInfo, fwd
--   and its methods), and the map from a guest port to its forward, in internal/session/daemon.go.
--   A pointer to a fwd is the guest port and an identity that is never handed out twice, so that
--   "the map still holds this object" can be asked.
-- - Session/Bind: bind, the allocation of a host port. What the transport answers for each pair of
--   ports is an argument. The 20 tries are the source's own bound, and the recursion is on them.
-- - Session/Daemon, Session/Sessions: the daemon's state and the operations that are one critical
--   section under d.mu (settleLocked, releaseLocked, dropOwners, expireTTL, remove, down, onDead,
--   detachLocked, openSession, closeSession, subscribe, unsubscribe).
-- - Session/Add: addWith, bindSlot and adopt, as the critical sections that they are made of, with
--   the bind between two of them; and add_with, the whole call, with what the other goroutines do
--   between its sections as an argument (Meanwhile).
-- - Session/Rebind: rebindPending, restore and retryPending. A run's batches are on fuel 2: alone,
--   a second batch finds nothing new (Ends). Slots, Live and Restore follow a restore over a
--   transport that serves, and Carries the transport through any restore.
-- - Session/Reconnect: reconnect, the loop that dials again, with its backoff. What its select
--   receives, a stop, the idle timer, a kick or the end of a wait with what the dial gave, is a
--   list, and so is what the other goroutines do to the daemon meanwhile. Turns is the induction
--   over that loop. Session/Supervise: loop, which supervises the daemon, on such a list too, and
--   shutdown behind it.
-- - Session/System: the daemon with the binders in flight beside it. An event is one critical
--   section; run takes any sequence of events, so every interleaving of requests, sessions,
--   binders, deaths and reconnects is a run. Its child modules prove the invariants: Sound, Keeps,
--   Adds and Reach for what holds of each forward, Slots, Finish, Batch, Quiet, Advance, Adopt,
--   Counter and Exact for the binders and the identities.
-- - Session/Holding: who holds which forward after the operations that drop owners. Session/Ledger
--   is the abstract view: a ledger of holds, with what each event of Session/System may do to it;
--   its child modules follow the events.
-- - Session/Dispatch: dispatch and sessionDispatch, the requests by op, and the fields of the
--   lines in internal/session/protocol.go.
-- - Session/Upstream: syncUpstream, callUpstream and resubscribeUpstream, by which a hub machine's
--   daemon keeps its subscription at the far daemon, with calls that time out and land late.
-- - Session/RateLimit, Session/Bridge with Url and Open: allowOpen, classify, bridgeBind and
--   bridgeOpen of internal/session/bridge.go, deliverTo of internal/session/daemon_session.go, and
--   Sanitize of internal/hostbrowser/hostbrowser.go. The parser of URLs and the subscriber's
--   answer are arguments, and so is what the other goroutines do between the sections of a bind;
--   InFlight takes it from the runs of Session/System. Session/Bridge/Subscriber is the other
--   side: openOnHost of bridge.go, over Open of hostbrowser.go, with the opener and the printing
--   of a URL as arguments.
-- - Config/HubName, Config/Ports, Config/Store: internal/config/hubname.go and
--   internal/config/ports.go: HUB/NAME and HUB@NAME, the text of a saved-forwards file, and the
--   directory of those files with its migration from the old confs.
-- - Config/Templates: internal/config/templates.go: the layers of template values (Under), their
--   resolution, the layer made of a resolved template, and Validate. An int is an integer, a
--   pointer an option; the tables come parsed, since the TOML library reads them.
-- - Config/Entry, Config/Providers, Config/File: internal/config/file.go and
--   internal/config/providers.go: the check of an entry and of a host, the record made of an entry
--   and the entry made of a record, the provider tables, placement and server names, and the check
--   of a whole file (ParseFile, validate). What toml.Decode gives of a file, the tables by name
--   and the keys it did not use, is an argument, and so is net.ParseIP. A map is an association
--   list, sorted by name as the code walks it.
-- - Config/Edit: internal/config/edit.go: the text of an entry's table (renderEntry), the headers
--   of tables (tableHeader, splitKey), the cut of a table's lines (cutTable), and, in
--   Config/Edit/Plan, AppendEntry, PlanRemoveEntry, Commit and RemoveEntry over a parser that is
--   an argument. splitKey's rounds are on fuel, the key's length and one (Rounds: any greater
--   number gives the same). What a read of the file finds, and whether the write fails, are
--   arguments.
-- - Cli/Mapping, Cli/Saved: internal/cli/forwards.go and internal/cli/hubforwards.go: HOST:GUEST
--   mappings, and the edits of the saved list by `ports add` and `ports rm`, over Config/Store.
-- - Agent/Clock: internal/agentrpc/clock.go: the exchange in which the host sends its clock to the
--   guest's agent. A time is an int64 of Unix seconds and nanoseconds; the printing and parsing of
--   a duration are arguments, and a stream is cut at maxClockLine bytes (Line).
-- - Reach: internal/reach/reach.go: the cache file of a remote box, with the time since when its
--   state holds. A time is its Unix seconds.
-- - Text: Go's strings as lists of code points, with what the code calls of strings and strconv:
--   Cut, Split at line ends, TrimSpace, Fields, ParseInt, Unquote, and decimal printing, on fuel
--   that is the number itself and one.
-- - Prelude: shared names, tests on numbers, lists. Tests: runs and witnesses.
--
-- In Session, times are numbers of nanoseconds, with 0 for Go's zero time. Closing a forward or a
-- connection outside the lock is an entry of a log in the state. Ports and identities are natural
-- numbers. Two orders that the source leaves open are fixed: the drop of the conf's holds in down and
-- its test for a stop behind it are one section, and allowOpen has its time from under the lock.
--
-- Not modelled: the transports (ssh, smol, hub) behind the calls the daemon makes of them, the
-- timers themselves, the JSON and the socket (what syncUpstream answers to a session's subscribe
-- is an argument of that request), logging, the change marker, the rest of the CLI, the old
-- formats that internal/config migrates, the backends, the providers and the rest of the guest's
-- agent. The fields Version, Since and Shim of a response, which only report, are left out, and so
-- is a request's Heartbeat but for the interval that a relay gets.
pub mod Prelude
pub mod Text
pub mod Config
pub mod Cli
pub mod Agent
pub mod Reach
pub mod Session
pub mod Tests
