-- ===== src/Tests/Fallback.antt =====
-- Runs of the fallback client.
use bb_auth.Prelude.{
  ℕ, ◌*◌, ◌^◌, ◌≡◌, refl, true, false, Option, some, List, [], ◌∷◌, arith, nat_eq, nat_beq_iff,
}
use bb_auth.Prelude.Int.{pos}
use bb_auth.Prelude.Hash.{find}
use bb_auth.Json.{Object}
use bb_auth.Registry.{Registry, UiProvider, is_authorized, has_active_provider}
use bb_auth.Agent.Sessions.{provider_status}
use bb_auth.Fallback.Client.{
  FallbackClient, new_client, connected_state, other_state, on_error, start_reconnect_timer,
  connect_to_server, connection_state_changed, status_message,
}
use bb_auth.Fallback.Client.Messages.{handle, handle_message, connected, disconnected, ready_read}
use bb_auth.Fallback.Client.Bounds.{Keeps}
use bb_auth.Fallback.Client.Reachable.{initial, after, reachable-Keeps}
use bb_auth.Fallback.Client.Backoff.{lost, failed_attempt, failed_attempts, capped, backoff-delay}
use bb_auth.Fallback.Client.Agreement.{status-Agrees}
use bb_auth.Tests.Fixtures.{world, provider_at, register_json}

abbrev bytes : List ℕ → List ℕ
bytes line = line

abbrev parse : List ℕ → Option Object
parse line = some register_json

reachable-Keeps_example : Keeps other_state (
    handle other_state bytes parse disconnected
      (handle connected_state bytes parse
        (ready_read (97 ∷ 10 ∷ []))
        (handle connected_state bytes parse connected new_client).1).1)
reachable-Keeps_example =
    reachable-Keeps bytes parse
      (handle connected_state bytes parse (ready_read (97 ∷ 10 ∷ []))
        (handle connected_state bytes parse connected new_client).1).1
      other_state disconnected
      (after connected_state (ready_read (97 ∷ 10 ∷ [])) (after connected_state connected initial))

backoff-delay_example :
    ((lost new_client).0
      ≡ connection_state_changed false
        ∷ status_message "Disconnected from auth daemon, reconnecting..."
        ∷ start_reconnect_timer 200
        ∷ [])
    × ((failed_attempt (failed_attempts 3 (lost new_client).1)).0
        ≡ connect_to_server ∷ start_reconnect_timer (capped (200 * 2 ^ 4)) ∷ [])
    × (on_error other_state (failed_attempts 3 (lost new_client).1)
        ≡ ([], failed_attempts 3 (lost new_client).1))
backoff-delay_example = backoff-delay 3 new_client refl

abbrev alone : Registry
alone = record { ui_providers = (1, provider_at (pos 10) 19000) ∷ []; active_provider = some 1 }

abbrev registered_client : FallbackClient
registered_client = record new_client { registered = true; provider_id = "p" }

only_socket : (s : ℕ) (q : UiProvider) → find s alone.ui_providers ≡ some q → q.id ≡ "p" → s ≡ 1
unfolding find
only_socket s q h e = ground (arith, h, nat_beq_iff 1 s)

status-Agrees_example :
    (handle_message connected_state
      (provider_status (world 20000) alone)
      registered_client).1.provider_active
    ≡ is_authorized alone 1
unfolding find has_active_provider
status-Agrees_example =
    status-Agrees (world 20000) alone 1 (provider_at (pos 10) 19000) connected_state
      registered_client refl only_socket refl refl refl refl
