-- ===== src/Providers/Launcher.antt =====
-- src/core/providers/ProviderLauncher.{hpp,cpp}: the choice of a provider to launch, the launch, and
-- the backoff after failures. QStrings compare as texts do, which agrees on the ASCII ids that
-- manifests have.
pub mod Choice
pub mod Backoff
use Prim.Native.String
use Prim.Native.Nat.{min, Ordering}
use bb_auth.Prelude.{
  ℕ, suc, ◌+◌, ◌*◌, ◌^◌, Bool, true, false, Option, none, some, String, List, [], ◌∷◌, ◌++◌, ◌||◌,
  ◌&&◌, not, if◌then◌else◌, ◌==◌, string_eq, ltb,
}
use bb_auth.Prelude.Int.{ltb_ℤ, eqb_ℤ}
use bb_auth.Prelude.Hash.{Hash, find, insert, remove}
use bb_auth.Json.{Json, Object, str, end, field, to_string}
use bb_auth.Providers.Host.{Host}
use bb_auth.Providers.Manifest.{ProviderManifest, has_slash}
use bb_auth.Providers.Discovery.{◌<>◌}

pub record LaunchAttemptResult : Type 0 where
  pub attempted : Bool
  pub launched : Bool
  pub provider_id : String
  pub executable : String
  pub detail : String

pub record RetryState : Type 0 where
  pub failures : ℕ
  pub next_eligible_ms : ℕ

pub record SelectedCandidate : Type 0 where
  pub id : String
  pub display_name : String
  pub exec : String
  pub args : List String
  pub env : Hash String String

abbrev pub base_backoff_ms : ℕ
base_backoff_ms = 250

abbrev pub max_backoff_ms : ℕ
max_backoff_ms = 5000

-- `BASE_BACKOFF_MS << std::min(failures, 8)`, capped, with the jitter that is drawn.
unfoldable pub compute_backoff_ms : ℕ → ℕ → ℕ
compute_backoff_ms failures jitter =
    min (base_backoff_ms * 2 ^ min failures 8) max_backoff_ms + jitter

abbrev pub text_before : String → String → Bool
text_before a b = elim (Prim.Native.String.compare a b) [ Ordering.lt ↦ true | _ ↦ false ]

-- The order of `std::sort`: higher priority first, then by id.
abbrev pub precedes : ProviderManifest → ProviderManifest → Bool
precedes a b =
    if not (eqb_ℤ a.priority b.priority) then ltb_ℤ b.priority a.priority else text_before a.id b.id

unfoldable pub sorted_in : ProviderManifest → List ProviderManifest → List ProviderManifest
sorted_in m [] = m ∷ []
sorted_in m (n ∷ ns) = let rest = sorted_in m ns in if precedes n m then n ∷ rest else m ∷ n ∷ ns

-- `std::sort`, as any sorting by the same order does it.
unfoldable pub sort : List ProviderManifest → List ProviderManifest
unfolding sorted_in
sort [] = []
sort (m ∷ ms) = sorted_in m (sort ms)

unfoldable pub autostarting : List ProviderManifest → List ProviderManifest
autostarting [] = []
autostarting (m ∷ ms) = let rest = autostarting ms in if m.autostart then m ∷ rest else rest

-- `args << "--socket" << socketPath`, if there is a path.
abbrev pub with_socket : String → List String → List String
with_socket path args = if path == "" then args else args ++ ("--socket" ∷ path ∷ [])

abbrev or_new : Option RetryState → RetryState
or_new none = record { failures = 0; next_eligible_ms = 0 }
or_new (some s) = s

-- The candidate, or `selectionError`.
pub data Selection : Type 0 where
  candidate : SelectedCandidate → Selection
  nothing_because : String → Selection

module _ (h : Host) where
  abbrev pub resolve_executable : String → String
  resolve_executable exec = if has_slash exec then exec else h.find_executable exec

  unfoldable pub merge_environment : Object → Hash String String → Hash String String
  merge_environment end env = env
  merge_environment (field k v o) env = merge_environment o (insert k (to_string (some v)) env)

  abbrev pub is_launchable : ProviderManifest → Bool
  is_launchable m =
      let exec = resolve_executable m.exec in not (exec == "") && h.is_executable_file exec

  abbrev pub candidate_of : String → ProviderManifest → SelectedCandidate
  candidate_of socket_path m = record {
    id = m.id;
    display_name = m.name;
    exec = resolve_executable m.exec;
    args = with_socket socket_path m.args;
    env = merge_environment m.env h.system_environment;
  }

  abbrev pub legacy_candidate : String → String → String → String → SelectedCandidate
  legacy_candidate id name exec socket_path = record {
    id = id;
    display_name = name;
    exec = exec;
    args = with_socket socket_path [];
    env = h.system_environment;
  }

  -- The loop over the sorted manifests.
  unfoldable pub first_launchable : List ProviderManifest → Option ProviderManifest
  first_launchable [] = none
  first_launchable (m ∷ ms) =
      let rest = first_launchable ms in if is_launchable m then some m else rest

  default_candidate : String → String → Selection
  default_candidate path socket_path =
      if path == "" || not (h.is_executable_file path)
      then nothing_because "skip: no launchable provider candidate"
      else candidate (legacy_candidate "__legacy_default__" "legacy-default" path socket_path)

  manifest_or_default : String → String → Option ProviderManifest → Selection
  unfolding default_candidate
  manifest_or_default path socket_path none = default_candidate path socket_path
  manifest_or_default path socket_path (some m) = candidate (candidate_of socket_path m)

  unfoldable pub select_candidate : List ProviderManifest → String → String → String → Selection
  unfolding manifest_or_default
  select_candidate manifests legacy_path default_path socket_path =
      let legacy = h.trimmed legacy_path in
      if not (legacy == "")
      then (if not (h.is_executable_file legacy)
          then nothing_because ("skip: BB_AUTH_FALLBACK_PATH is not executable: " <> legacy)
          else candidate (legacy_candidate "__legacy_env__" "legacy-env" legacy socket_path))
      else manifest_or_default (h.trimmed default_path) socket_path
          (first_launchable (sort (autostarting manifests)))

abbrev pub no_result : LaunchAttemptResult
no_result = record {
  attempted = false;
  launched = false;
  provider_id = "";
  executable = "";
  detail = "";
}

abbrev pub Retries : Type 0
Retries = Hash String RetryState

abbrev eligible : ℕ → Option RetryState → Bool
eligible now none = true
eligible now (some s) = not (ltb now s.next_eligible_ms)

unfoldable pub can_attempt : Retries → String → ℕ → Bool
can_attempt m id now = eligible now (find id m)

unfoldable pub mark_success : Retries → String → Retries
mark_success m id = remove id m

-- One more failure, and the time until which the provider is left alone.
abbrev pub failed_again : RetryState → ℕ → ℕ → RetryState
failed_again s now jitter = record {
  failures = suc s.failures;
  next_eligible_ms = now + compute_backoff_ms (suc s.failures) jitter;
}

unfoldable pub mark_failure : Retries → String → ℕ → ℕ → Retries
mark_failure m id now jitter = insert id (failed_again (or_new (find id m)) now jitter) m

module _ (h : Host) where
  attempt : Retries → String → SelectedCandidate → LaunchAttemptResult × Retries
  attempt m reason c =
      if h.start_process c.exec c.args c.env
      then (
        record {
          attempted = true;
          launched = true;
          provider_id = c.id;
          executable = c.exec;
          detail = "launched '" <> c.display_name <> "' (" <> reason <> ")";
        },
        mark_success m c.id,
      )
      else (
        record {
          attempted = true;
          launched = false;
          provider_id = c.id;
          executable = c.exec;
          detail = "launch failed for '" <> c.display_name <> "' (" <> reason <> ")";
        },
        mark_failure m c.id h.now h.jitter,
      )

  abbrev until : Option RetryState → ℕ
  until none = 0
  until (some s) = s.next_eligible_ms

  unfoldable pub launch_candidate : Retries → String → Selection → LaunchAttemptResult × Retries
  unfolding attempt
  launch_candidate m reason (nothing_because error) = (record no_result { detail = error }, m)
  launch_candidate m reason (candidate c) =
      if c.id == ""
      then (no_result, m)
      else if not (can_attempt m c.id h.now)
      then (
        record {
          attempted = false;
          launched = false;
          provider_id = c.id;
          executable = c.exec;
          detail = "skip: launch throttled until " <> h.number (until (find c.id m));
        },
        m,
      )
      else attempt m reason c

  unfoldable pub try_launch :
      Retries
      → List ProviderManifest
      → String
      → String
      → Bool
      → Bool
      → String
      → String
      → LaunchAttemptResult × Retries
  unfolding launch_candidate
  try_launch m manifests socket_path reason has_active has_pending legacy_path default_path =
      if has_active || not has_pending
      then (record no_result { detail = "skip: no launch required" }, m)
      else launch_candidate m reason
          (select_candidate h manifests legacy_path default_path socket_path)
