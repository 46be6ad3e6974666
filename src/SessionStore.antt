-- ===== src/SessionStore.antt =====
-- src/core/agent/SessionStore.{hpp,cpp}: the open sessions by id. `std::optional<QJsonObject>` is
-- the event to send, if there is one.
pub mod Content
pub mod Shown
pub mod Refinement
use bb_auth.Prelude.{
  ℕ, Bool, true, false, Option, none, some, String, List, length, is_nil, is_some, if◌then◌else◌,
  string_eq,
}
use bb_auth.Prelude.Int.{ℤ}
use bb_auth.Prelude.Hash.{Hash, find, insert, remove, contains}
use bb_auth.Json.{Object}
use bb_auth.Session
use bb_auth.Session.{
  Source, Context, Result, is_pinentry, set_prompt, set_error, set_info, set_pinentry_retry, close,
  to_created_event, to_updated_event, to_closed_event,
}

abbrev pub Sessions : Type 0
Sessions = Hash String Session.Session

unfoldable pub create_session : Sessions → String → Source → Context → Option Object × Sessions
create_session m id source context =
    let session = Session.create id source context in
    if contains id m then (none, m) else (some (to_created_event session), insert id session m)

-- The common shape of the updates: a missing id gives nothing and changes nothing.
abbrev updated :
    Sessions
    → String
    → (Session.Session → Session.Session)
    → Option Session.Session
    → Option Object × Sessions
updated m id change none = (none, m)
updated m id change (some s) = let t = change s in (some (to_updated_event t), insert id t m)

unfoldable pub update_prompt : Sessions → String → String → Bool → Bool → Option Object × Sessions
update_prompt m id prompt echo clear_error =
    updated m id (λ s. set_prompt s prompt echo clear_error) (find id m)

unfoldable pub update_error : Sessions → String → String → Option Object × Sessions
update_error m id text = updated m id (λ s. set_error s text) (find id m)

unfoldable pub update_info : Sessions → String → String → Option Object × Sessions
update_info m id text = updated m id (λ s. set_info s text) (find id m)

abbrev pub retried : Sessions → String → ℤ → ℤ → Option Session.Session → Bool × Sessions
retried m id cur max none = (false, m)
retried m id cur max (some s) =
    if is_pinentry s.source then (true, insert id (set_pinentry_retry s cur max) m) else (false, m)

unfoldable pub update_pinentry_retry : Sessions → String → ℤ → ℤ → Bool × Sessions
update_pinentry_retry m id cur max = retried m id cur max (find id m)

abbrev closed_in : Sessions → String → Result → Option Session.Session → Option Object × Sessions
closed_in m id result none = (none, m)
closed_in m id result (some s) = (some (to_closed_event (close s result)), remove id m)

unfoldable pub close_session : Sessions → String → Result → Option Object × Sessions
close_session m id result = closed_in m id result (find id m)

unfoldable pub get_session : Sessions → String → Option Session.Session
get_session m id = find id m

unfoldable pub is_empty : Sessions → Bool
is_empty m = is_nil m

unfoldable pub size : Sessions → ℕ
size m = length m
