-- ===== src/Session.antt =====
-- src/core/Session.{hpp,cpp}: one authentication session and its JSON events (protocol v2).
pub mod Lifecycle
pub mod Created
use bb_auth.Prelude.{
  ℕ, Bool, true, false, Option, none, some, String, if◌then◌else◌, ◌==◌, string_eq,
}
use bb_auth.Prelude.Int.{ℤ, pos, negsuc, ltb_ℤ}
use bb_auth.Json.{Json, Object, null, bool, int, str, obj, end, field, put, is_empty_object}

pub data Source : Type 0 where
  polkit keyring pinentry : Source

pub data State : Type 0 where
  prompting closed : State

pub data Result : Type 0 where
  success cancelled error : Result

pub record Requestor : Type 0 where
  pub name : String
  pub icon : String
  pub fallback_letter : String
  pub fallback_key : String
  pub pid : ℤ

pub record Context : Type 0 where
  pub message : String
  pub requestor : Requestor
  pub action_id : String
  pub user : String
  pub details : Object
  pub keyring_name : String
  pub description : String
  pub keyinfo : String
  pub cur_retry : ℤ
  pub max_retries : ℤ
  pub confirm_only : Bool
  pub repeat : Bool

-- The members' default initialisers.
abbrev pub new_requestor : Requestor
new_requestor = record {
  name = "";
  icon = "";
  fallback_letter = "";
  fallback_key = "";
  pid = pos 0;
}

abbrev pub new_context : Context
new_context = record {
  message = "";
  requestor = new_requestor;
  action_id = "";
  user = "";
  details = end;
  keyring_name = "";
  description = "";
  keyinfo = "";
  cur_retry = pos 0;
  max_retries = pos 3;
  confirm_only = false;
  repeat = false;
}

pub record Session : Type 0 where
  pub id : String
  pub source : Source
  pub context : Context
  pub state : State
  pub prompt : String
  pub error_text : String
  pub info : String
  pub echo : Bool
  pub result : Option Result

unfoldable pub create : String → Source → Context → Session
create id source context = record {
  id = id;
  source = source;
  context = context;
  state = prompting;
  prompt = "";
  error_text = "";
  info = "";
  echo = false;
  result = none;
}

unfoldable pub set_prompt : Session → String → Bool → Bool → Session
set_prompt s prompt echo clear_error = record s {
  prompt = prompt;
  echo = echo;
  state = prompting;
  error_text = if clear_error then "" else s.error_text;
  info = "";
}

unfoldable pub set_error : Session → String → Session
set_error s text = record s { error_text = text }

unfoldable pub set_info : Session → String → Session
set_info s text = record s { info = text }

abbrev pub is_pinentry : Source → Bool
is_pinentry pinentry = true
is_pinentry _ = false

abbrev pub is_polkit : Source → Bool
is_polkit polkit = true
is_polkit _ = false

unfoldable pub set_pinentry_retry : Session → ℤ → ℤ → Session
set_pinentry_retry s cur_retry max_retries =
    if is_pinentry s.source
    then record s {
      context = record context {
        cur_retry = if ltb_ℤ cur_retry (pos 0) then pos 0 else cur_retry;
        max_retries = if ltb_ℤ (pos 0) max_retries then max_retries else pos 3;
      };
    }
    else s
  where
    open s use {context}

abbrev is_success : Result → Bool
is_success success = true
is_success _ = false

unfoldable pub close : Session → Result → Session
close s result = record s {
  result = some result;
  state = closed;
  error_text = if is_success result then "" else s.error_text;
}

abbrev pub source_to_string : Source → String
source_to_string polkit = "polkit"
source_to_string keyring = "keyring"
source_to_string pinentry = "pinentry"

abbrev pub result_to_string : Result → String
result_to_string success = "success"
result_to_string cancelled = "cancelled"
result_to_string error = "error"

-- `if (test) object[key] = v;`
abbrev pub put_if : Bool → String → Json → Object → Object
put_if b k v o = if b then put k v o else o

-- `if (!text.isEmpty()) object[key] = text;`
abbrev pub put_text : String → String → Object → Object
put_text k text o = if text == "" then o else put k (str text) o

requestor_to_json : Context → Object
requestor_to_json c =
    let object =
      field "name" (str r.name)
        (field "icon" (str r.icon) (field "fallbackLetter" (str r.fallback_letter) end)) in
    let keyed = put_text "fallbackKey" r.fallback_key object in
    put_if (ltb_ℤ (pos 0) r.pid) "pid" (int r.pid) keyed
  where
    open c use {requestor as r}

source_fields : Source → Context → Object → Object
source_fields polkit c ctx =
    let acted = put_text "actionId" c.action_id ctx in
    let owned = put_text "user" c.user acted in
    if is_empty_object c.details then owned else put "details" (obj c.details) owned
source_fields keyring c ctx = put_text "keyringName" c.keyring_name ctx
source_fields pinentry c ctx =
    let described = put_text "description" c.description ctx in
    let keyed = put_text "keyinfo" c.keyinfo described in
    put "repeat" (bool c.repeat) (
      put "confirmOnly" (bool c.confirm_only)
        (put "maxRetries" (int c.max_retries) (put "curRetry" (int c.cur_retry) keyed)))

context_to_json : Session → Object
unfolding requestor_to_json source_fields
context_to_json s = source_fields s.source s.context (
    field "message" (str s.context.message)
      (field "requestor" (obj (requestor_to_json s.context)) end))

unfoldable pub to_created_event : Session → Object
unfolding context_to_json
to_created_event s = field "type" (str "session.created") (
    field "id" (str s.id) (
      field "source" (str (source_to_string s.source))
        (field "context" (obj (context_to_json s)) end)))

unfoldable pub to_updated_event : Session → Object
to_updated_event s =
    let event = field "type" (str "session.updated") (
      field "id" (str s.id) (
        field "state" (str "prompting")
          (field "prompt" (str s.prompt) (field "echo" (bool s.echo) end)))) in
    let counted =
      if is_pinentry s.source
      then put "maxRetries" (int s.context.max_retries)
          (put "curRetry" (int s.context.cur_retry) event)
      else event in
    put_text "info" s.info (put_text "error" s.error_text counted)

abbrev pub or_error : Option Result → Result
or_error none = error
or_error (some r) = r

unfoldable pub to_closed_event : Session → Object
to_closed_event s = put_text "error" s.error_text (
    field "type" (str "session.closed")
      (field "id" (str s.id) (field "result" (str (result_to_string (or_error s.result))) end)))
