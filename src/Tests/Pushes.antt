-- ===== src/Tests/Pushes.antt =====
-- Runs of the push decision.
use pi_remote.Prelude.{ℕ, ◌≡◌, List, [], ◌∷◌, Option, none, some, true}
use pi_remote.Machines.Ingest.{Notification}
use pi_remote.Push.{Client, Clients, FocusTracker, Payload, dispatch}
use pi_remote.Push.Dispatched.{posts_of, each_of, dispatch-each}

abbrev seal : Payload → List ℕ → Option (List ℕ)
seal payload key = some key

abbrev notification : Notification
notification = record {
  reason = "tool_failure";
  session_id = "s";
  machine_id = "m";
  machine_display_name = "Machine";
  project_name = "project";
  project_display_name = none;
  summary = "A tool failed";
  ts = 0;
}

abbrev client : Client
client = record {
  id = "phone";
  device_display_name = "Phone";
  last_seen = 0;
  endpoint = "https://ntfy.example/up";
  pub_key = 7 ∷ [];
  registered_at = 0;
  preferences = [];
}

abbrev clients : Clients
clients = ("phone", client) ∷ []

abbrev tracker : FocusTracker
tracker = ("c", record { client_id = "phone"; sessions = ("t", true) ∷ [] }) ∷ []

dispatch-each_example :
    dispatch seal notification 9 tracker clients
    ≡ each_of (posts_of seal notification 9 tracker) clients
dispatch-each_example = dispatch-each seal notification 9 tracker clients
