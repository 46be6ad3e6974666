-- ===== src/Tests/Fixtures.antt =====
-- Concrete values for the tests: a machine with no files, messages, providers and manifests.
use bb_auth.Prelude.{ℕ, Bool, true, false, [], ◌∷◌, none, some, nat_eq, ◌==◌, if◌then◌else◌}
use bb_auth.Prelude.Int.{ℤ, pos}
use bb_auth.Json.{Object, str, int, end, field}
use bb_auth.Session
use bb_auth.Session.{new_context, new_requestor, polkit}
use bb_auth.Agent.State.{World}
use bb_auth.Registry.{UiProvider, Registry}
use bb_auth.Providers.Host.{Host, object}
use bb_auth.Providers.Manifest.{ProviderManifest}
use bb_auth.Providers.Launcher.{SelectedCandidate}

abbrev pub event : ℕ → Object
event n = field "type" (str "session.updated") (field "n" (int (pos n)) end)

abbrev pub provider_at : ℤ → ℕ → UiProvider
provider_at priority heartbeat = record {
  id = "p";
  name = "panel";
  kind = "quickshell";
  priority = priority;
  last_heartbeat_ms = heartbeat;
}

-- Three providers; the second is stale at 20 s, and socket 3 is not connected.
abbrev pub registry : Registry
registry = record {
  ui_providers =
      (1, provider_at (pos 10) 19000)
      ∷ (2, provider_at (pos 100) 1000)
      ∷ (3, provider_at (pos 200) 19500)
      ∷ (4, provider_at (pos 10) 19900)
      ∷ [];
  active_provider = some 3;
}

abbrev pub connected : ℕ → Bool
connected s = if_not (s == 3)
  where
    if_not : Bool → Bool
    if_not true = false
    if_not false = true

abbrev pub manifest_json : Object
manifest_json = field "id" (str "a1") (
    field "name" (str "Panel") (
      field "kind" (str "quickshell")
        (field "exec" (str "panel") (field "priority" (int (pos 5)) end))))

abbrev pub manifest : ProviderManifest
manifest = record {
  id = "a1";
  name = "Panel";
  kind = "quickshell";
  priority = pos 5;
  exec = "panel";
  args = [];
  env = end;
  autostart = true;
  capabilities = [];
  source_path = "/d/a.json";
}

-- One directory with two files of the same content; starts fail.
abbrev pub machine : ℕ → Host
machine now = record {
  trimmed = λ s. s;
  is_absolute_path = λ s. true;
  clean_path = λ s. s;
  number = λ n. "n";
  from_json = λ s. object manifest_json;
  dir_exists = λ s. true;
  entries = λ s. ("/d/a.json", some "{}") ∷ ("/d/b.json", some "{}") ∷ [];
  find_executable = λ s. "/bin/panel";
  is_executable_file = λ s. true;
  system_environment = [];
  start_process = λ p a e. false;
  now = now;
  jitter = 7;
}

abbrev pub panel : SelectedCandidate
panel = record { id = "a1"; display_name = "Panel"; exec = "/bin/panel"; args = []; env = [] }

abbrev pub polkit_session : Session.Session
polkit_session = record {
  id = "c";
  source = polkit;
  context = new_context;
  state = Session.prompting;
  prompt = "Password:";
  error_text = "";
  info = "touch";
  echo = false;
  result = none;
}

-- A world in which sockets 1 and 2 belong to the processes 10 and 20.
abbrev pub world : ℕ → World
world now = record {
  connected = λ s. true;
  valid = λ s. true;
  is_open = λ s. true;
  peer_pid = λ s. if s == 1 then pos 10 else pos 20;
  uuid = "u";
  resolve_actor = λ p. new_requestor;
  match_retries = λ s. none;
  to_lower = λ s. s;
  lock_free = true;
  search_dirs = "/d" ∷ [];
  socket_path = "/run/bb";
  legacy_override = "";
  legacy_default_path = "/bin/bb";
  host = machine now;
}

abbrev pub register_json : Object
register_json = field "type" (str "ui.register") (field "name" (str "panel") end)

abbrev pub request_json : Object
request_json =
    field "type" (str "pinentry_request")
      (field "cookie" (str "c") (field "keyinfo" (str "k") (field "prompt" (str "PIN:") end)))

abbrev pub result_json : Object
result_json =
    field "type" (str "pinentry_result") (field "id" (str "c") (field "result" (str "success") end))

abbrev pub keyring_json : Object
keyring_json =
    field "type" (str "keyring_request")
      (field "cookie" (str "c") (field "title" (str "Unlock") end))
