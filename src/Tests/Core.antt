-- ===== src/Tests/Core.antt =====
-- The event queue, the registry, sessions and their store.
use bb_auth.Prelude.{◌≡◌, refl, arith, [], ◌∷◌, some, String, string_eq, not, ◌==◌, if◌then◌else◌}
use bb_auth.EventQueue.{EventQueue, create, drain_to_waiters}
use bb_auth.EventQueue.Newest.{enqueue_all, newest, enqueue_all-newest}
use bb_auth.EventQueue.Delivery.{IsDelivery, drain_to_waiters-IsDelivery}
use bb_auth.Registry.{recompute_active_provider, same_socket}
use bb_auth.Registry.Recompute.{live_only, IsElected, recompute-IsElected}
use bb_auth.Session.{cancelled, to_updated_event}
use bb_auth.Session.Lifecycle.{ReadsUpdate, updated-ReadsUpdate}
use bb_auth.SessionStore.{Sessions}
use bb_auth.SessionStore.Content.{closes}
use bb_auth.SessionStore.Shown.{view, sends, perform, next, Tells}
use bb_auth.SessionStore.Refinement.{run-refines}
use bb_auth.Tests.Fixtures.{event, registry, connected, polkit_session}

enqueue_all-newest_example :
    (enqueue_all (create 2) (event 1 ∷ event 2 ∷ event 3 ∷ [])).event_queue
    ≡ newest 2 (event 1 ∷ event 2 ∷ event 3 ∷ [])
enqueue_all-newest_example = enqueue_all-newest 2 (event 1 ∷ event 2 ∷ event 3 ∷ []) (omega arith)

abbrev waiting : EventQueue
waiting = record { max_size = 4; event_queue = event 1 ∷ event 2 ∷ []; next_waiters = 7 ∷ [] }

drain_to_waiters-IsDelivery_example :
    IsDelivery
      (7 ∷ [])
      (event 1 ∷ event 2 ∷ [])
      (drain_to_waiters waiting).0
      (drain_to_waiters waiting).1.next_waiters
      (drain_to_waiters waiting).1.event_queue
drain_to_waiters-IsDelivery_example = drain_to_waiters-IsDelivery waiting

recompute-IsElected_example :
    let (changed, r') = recompute_active_provider registry 20000 connected in
    (r'.ui_providers ≡ live_only 20000 connected registry.ui_providers)
    × IsElected r'.ui_providers r'.active_provider
    × (changed ≡ not (same_socket (some 3) r'.active_provider))
recompute-IsElected_example = recompute-IsElected 20000 connected registry

recompute_picks_latest :
    (recompute_active_provider registry 20000 connected).1.active_provider ≡ some 4
unfolding recompute_active_provider
recompute_picks_latest = refl

updated-ReadsUpdate_example : ReadsUpdate polkit_session (to_updated_event polkit_session)
updated-ReadsUpdate_example = updated-ReadsUpdate polkit_session

abbrev stored : Sessions
stored = ("c", polkit_session) ∷ []

run-refines_example :
    Tells
      (next (sends (closes cancelled)) "c" (view stored "c")).0
      (perform (sends (closes cancelled)) stored "c").0
    × ((j : String)
        → view (perform (sends (closes cancelled)) stored "c").1 j ≡ (
            if "c" == j
            then (next (sends (closes cancelled)) "c" (view stored "c")).1
            else view stored j))
run-refines_example = run-refines (sends (closes cancelled)) stored "c"
