-- ===== src/Registry.antt =====
-- src/core/agent/ProviderRegistry.{hpp,cpp}: the UI providers that registered, by socket, and the
-- active one among them. `now` is what `m_nowFn` returns, `uuid` what QUuid::createUuid does, and
-- `connected` tells which sockets are in ConnectedState; the keys of the hash are never null.
-- The QPointer is an option: a socket is destroyed only after `removeSocket`.
pub mod Recompute
pub mod Access
use bb_auth.Prelude.{
  ℕ, ◌-◌, Bool, true, false, Option, none, some, List, [], ◌∷◌, ◌&&◌, ◌||◌, not, String, is_nil,
  is_some, ltb, if◌then◌else◌, ◌==◌, nat_eq, string_eq,
}
use bb_auth.Prelude.Int.{ℤ, pos, negsuc, ltb_ℤ, eqb_ℤ}
use bb_auth.Prelude.Hash.{Hash, find, insert, remove, contains, keys}
use bb_auth.Json.{Object, value, has_key, to_string, to_int}

pub record UiProvider : Type 0 where
  pub id : String
  pub name : String
  pub kind : String
  pub priority : ℤ
  pub last_heartbeat_ms : ℕ

pub record Registry : Type 0 where
  pub ui_providers : Hash ℕ UiProvider
  pub active_provider : Option ℕ

abbrev pub heartbeat_timeout_ms : ℕ
heartbeat_timeout_ms = 15000

abbrev new_provider : UiProvider
new_provider = record { id = ""; name = ""; kind = ""; priority = pos 0; last_heartbeat_ms = 0 }

abbrev pub or_new : Option UiProvider → UiProvider
or_new none = new_provider
or_new (some p) = p

abbrev pub default_priority : String → ℤ
default_priority kind =
    if kind == "quickshell" then pos 100 else if kind == "fallback" then pos 10 else pos 50

-- `text.isEmpty() ? other : text`
abbrev pub or_text : String → String → String
or_text text other = if text == "" then other else text

unfoldable pub filled : UiProvider → Object → ℕ → String → UiProvider
filled p msg now uuid =
    let name = or_text (to_string (value "name" msg)) "unknown" in
    let kind = or_text (to_string (value "kind" msg)) name in
    record {
      id = or_text p.id uuid;
      name = name;
      kind = kind;
      priority =
          if has_key "priority" msg then to_int (value "priority" msg) else default_priority kind;
      last_heartbeat_ms = now;
    }

unfoldable pub register_provider : Registry → ℕ → Object → ℕ → String → UiProvider × Registry
unfolding filled
register_provider r socket msg now uuid =
    let p = filled (or_new (find socket r.ui_providers)) msg now uuid in
    (p, record r { ui_providers = insert socket p r.ui_providers })

abbrev beaten : Registry → ℕ → ℕ → Option UiProvider → Bool × Registry
beaten r socket now none = (false, r)
beaten r socket now (some p) = (
  true,
  record r { ui_providers = insert socket (record p { last_heartbeat_ms = now }) r.ui_providers },
)

unfoldable pub heartbeat : Registry → ℕ → ℕ → Bool × Registry
heartbeat r socket now = beaten r socket now (find socket r.ui_providers)

unfoldable pub unregister_provider : Registry → ℕ → Bool × Registry
unregister_provider r socket =
    (contains socket r.ui_providers, record r { ui_providers = remove socket r.ui_providers })

unfoldable pub remove_socket : Registry → ℕ → Bool × Registry
unfolding unregister_provider
remove_socket r socket = unregister_provider r socket

-- The variables of the loop of `recomputeActiveProvider`.
pub record Best : Type 0 where
  pub socket : Option ℕ
  pub priority : ℤ
  pub heartbeat : ℕ

abbrev pub no_best : Best
no_best = record { socket = none; priority = negsuc 2147483647; heartbeat = 0 }

-- Not `socketInvalid || stale`.
abbrev pub is_live : ℕ → (ℕ → Bool) → ℕ → UiProvider → Bool
is_live now connected socket p =
    not (not (connected socket) || ltb heartbeat_timeout_ms (now - p.last_heartbeat_ms))

abbrev pub is_better : UiProvider → Best → Bool
is_better p b =
    not (is_some b.socket)
    || (ltb_ℤ b.priority p.priority
        || (eqb_ℤ p.priority b.priority && ltb b.heartbeat p.last_heartbeat_ms))

abbrev pub chosen : ℕ → UiProvider → Best
chosen socket p = record {
  socket = some socket;
  priority = p.priority;
  heartbeat = p.last_heartbeat_ms;
}

-- The loop: the providers that stay and the best of them.
unfoldable pub scan : ℕ → (ℕ → Bool) → Best → Hash ℕ UiProvider → Hash ℕ UiProvider × Best
scan now connected best [] = ([], best)
scan now connected best ((socket, p) ∷ rest) =
    let next = if is_better p best then chosen socket p else best in
    let skipped = scan now connected best rest in
    let taken = scan now connected next rest in
    if is_live now connected socket p then ((socket, p) ∷ taken.0, taken.1) else skipped

abbrev pub same_socket : Option ℕ → Option ℕ → Bool
same_socket none none = true
same_socket (some a) (some b) = a == b
same_socket _ _ = false

unfoldable pub recompute_active_provider : Registry → ℕ → (ℕ → Bool) → Bool × Registry
unfolding scan
recompute_active_provider r now connected =
    let (kept, best) = scan now connected no_best r.ui_providers in
    if same_socket r.active_provider best.socket
    then (false, record r { ui_providers = kept })
    else (true, record { ui_providers = kept; active_provider = best.socket })

unfoldable pub prune_stale : Registry → ℕ → (ℕ → Bool) → Bool × Registry
unfolding recompute_active_provider
prune_stale r now connected = recompute_active_provider r now connected

unfoldable pub is_authorized : Registry → ℕ → Bool
is_authorized r socket =
    if is_nil r.ui_providers
    then true
    else if not (contains socket r.ui_providers)
    then false
    else same_socket (some socket) r.active_provider

abbrev holds_active : Hash ℕ UiProvider → Option ℕ → Bool
holds_active m none = false
holds_active m (some s) = contains s m

unfoldable pub has_active_provider : Registry → Bool
has_active_provider r = holds_active r.ui_providers r.active_provider

abbrev info_of : Hash ℕ UiProvider → Option ℕ → Option UiProvider
info_of m none = none
info_of m (some s) = find s m

unfoldable pub active_provider_info : Registry → Option UiProvider
unfolding has_active_provider
active_provider_info r =
    if not (has_active_provider r) then none else info_of r.ui_providers r.active_provider

unfoldable pub provider : Registry → ℕ → Option UiProvider
provider r socket = find socket r.ui_providers

unfoldable pub is_registered : Registry → ℕ → Bool
is_registered r socket = contains socket r.ui_providers

unfoldable pub sockets : Registry → List ℕ
sockets r = keys r.ui_providers
