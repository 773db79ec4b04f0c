-- ===== src/Tests/Ledger.antt =====
-- The ledger of holds, in a run with an add that finds no port.
use devvm.Prelude.{true, false, List, [], ◌∷◌}
use devvm.Session.Owner.{conf, connection}
use devvm.Session.Daemon.{plain}
use devvm.Session.Add.{AddReq}
use devvm.Session.System.{Event, opens_session, adds, finishes, run, start, step}
use devvm.Session.Ledger.{Moves}
use devvm.Session.Ledger.Steps.{hold, run-Moves}
use devvm.Tests.{some_busy}

abbrev web : AddReq
web = record { pref = 3005; guest = 3000; exact = false; own = conf; expires = 0; capped = false }

-- The session's add of 8080, in a range where every port is taken.
abbrev crowded : AddReq
crowded = record {
  pref = 80;
  guest = 8080;
  exact = false;
  own = connection 1;
  expires = 0;
  capped = false;
}

abbrev events : List Event
events = opens_session false ∷ adds web ∷ finishes 0 some_busy false ∷ adds crowded ∷ []

run-Moves_example :
    Moves
      (run (start (plain true)) events)
      (finishes 0 some_busy false)
      8080
      (connection 1)
      (hold 8080 (connection 1) (run (start (plain true)) events))
      (hold 8080
        (connection 1)
        (step (run (start (plain true)) events) (finishes 0 some_busy false)))
run-Moves_example = run-Moves (plain true) events (finishes 0 some_busy false) 8080 (connection 1)
