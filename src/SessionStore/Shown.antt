-- ===== src/SessionStore/Shown.antt =====
-- The store as its users see it: what is shown of each session, and what every call announces, as a
-- specification beside src/core/agent/SessionStore.cpp.
use bb_auth.Prelude.{
  ◌≡◌, zero, suc, Bool, true, false, Option, none, some, String, if◌then◌else◌, string_eq,
}
use bb_auth.Prelude.Int.{ℤ, pos, negsuc, pos_part}
use bb_auth.Prelude.Hash.{find}
use bb_auth.Json.{Object}
use bb_auth.Session
use bb_auth.Session.{
  Source, polkit, keyring, pinentry, Context, Result, success, cancelled, error, Session,
  is_pinentry, set_pinentry_retry,
}
use bb_auth.Session.Created.{ReadsCreated, ReadsClosed}
use bb_auth.Session.Lifecycle.{ReadsUpdate}
use bb_auth.SessionStore.{Sessions, update_pinentry_retry}
use bb_auth.SessionStore.Content.{Op, creates, prompts, fails, informs, closes, run}

-- What is shown of an open session.
pub record Shown : Type 0 where
  pub id : String
  pub source : Source
  pub about : Context
  pub prompt : String
  pub echo : Bool
  pub failure : String
  pub info : String

abbrev pub shown_of : Session → Shown
shown_of s = record {
  id = s.id;
  source = s.source;
  about = s.context;
  prompt = s.prompt;
  echo = s.echo;
  failure = s.error_text;
  info = s.info;
}

abbrev pub viewed : Option Session → Option Shown
viewed none = none
viewed (some s) = some (shown_of s)

-- The store as a function from ids.
abbrev pub view : Sessions → String → Option Shown
view m id = viewed (find id m)

-- The calls of the store, and what they return.
pub data Call : Type 0 where
  sends : Op → Call
  retries : ℤ → ℤ → Call

pub data Answer : Type 0 where
  event : Option Object → Answer
  done : Bool → Answer

abbrev pub perform : Call → Sessions → String → Answer × Sessions
perform (sends op) m id = let (e, m') = run op m id in (event e, m')
perform (retries cur max) m id = let (b, m') = update_pinentry_retry m id cur max in (done b, m')

-- What a call announces.
pub data Notice : Type 0 where
  silent : Notice
  opened refreshed : Shown → Notice
  ended : String → Result → String → Notice
  accepted : Bool → Notice

-- A retry limit that is not positive counts as 3.
abbrev pub limit : ℤ → ℤ
limit (pos zero) = pos 3
limit (pos (suc n)) = pos (suc n)
limit (negsuc n) = pos 3

abbrev pub recounted : Source → ℤ → ℤ → Shown → Notice × Option Shown
recounted pinentry cur max v = (
  accepted true,
  some (record v {
    about = record v.about { cur_retry = pos (pos_part cur); max_retries = limit max };
  }),
)
recounted _ cur max v = (accepted false, some v)

-- A success leaves no error.
abbrev pub last_failure : Result → Shown → String
last_failure success v = ""
last_failure _ v = v.failure

-- The specification: what a call announces and leaves of what is shown under its id.
abbrev pub next : Call → String → Option Shown → Notice × Option Shown
next (sends (creates source about)) id none =
    let v : Shown = record {
      id = id;
      source = source;
      about = about;
      prompt = "";
      echo = false;
      failure = "";
      info = "";
    } in
    (opened v, some v)
next (sends (creates source about)) id (some v) = (silent, some v)
next (sends op) id none = (silent, none)
next (sends (prompts text echo clear)) id (some v) =
    let u = record v {
      prompt = text;
      echo = echo;
      failure = if clear then "" else v.failure;
      info = "";
    } in
    (refreshed u, some u)
next (sends (fails text)) id (some v) = let u = record v { failure = text } in (refreshed u, some u)
next (sends (informs text)) id (some v) = let u = record v { info = text } in (refreshed u, some u)
next (sends (closes result)) id (some v) = (ended v.id result (last_failure result v), none)
next (retries cur max) id none = (accepted false, none)
next (retries cur max) id (some v) = recounted v.source cur max v

-- An open session that is shown so.
abbrev pub session_of : Shown → Session
session_of v = record {
  id = v.id;
  source = v.source;
  context = v.about;
  state = Session.prompting;
  prompt = v.prompt;
  error_text = v.failure;
  info = v.info;
  echo = v.echo;
  result = none;
}

-- What a call returns says what it announces.
abbrev pub Tells : Notice → Answer → Type 0
Tells silent a = a ≡ event none
Tells (accepted b) a = a ≡ done b
Tells (opened v) (event (some e)) = ReadsCreated v.id v.source v.about e
Tells (refreshed v) (event (some e)) = ReadsUpdate (session_of v) e
Tells (ended id result text) (event (some e)) = ReadsClosed id result text e
Tells _ _ = ⊥
