-- ===== src/Session/Created.antt =====
-- What a session is announced with, and what is said at its end.
use bb_auth.Prelude.{
  ◌≡◌, refl, ap, Bool, true, false, Option, none, some, String, arith, ◌==◌, string_eq,
  if◌then◌else◌,
}
use bb_auth.Prelude.Int.{ℤ, pos, ltb_ℤ}
use bb_auth.Json.{
  Json, Object, end, field, str, bool, int, obj, value, put, value-put, is_empty_object,
}
use bb_auth.Session.{
  Source, polkit, keyring, pinentry, Result, success, cancelled, error, Requestor, Context, Session,
  source_to_string, result_to_string, put_if, context_to_json, requestor_to_json, source_fields,
  to_created_event, to_closed_event,
}
use bb_auth.Session.Lifecycle.{text_or_none, value-put_text}

-- The words of the protocol.
abbrev pub source_word : Source → String
source_word polkit = "polkit"
source_word keyring = "keyring"
source_word pinentry = "pinentry"

abbrev pub result_word : Result → String
result_word success = "success"
result_word cancelled = "cancelled"
result_word error = "error"

-- A member that is written under a condition, or if it is an object with members.
value-put_if :
    (b : Bool) (k j : String) (v : Json) (o : Object)
    → value j (put_if b k v o) ≡ (if k == j then (if b then some v else value j o) else value j o)
value-put_if true k j v o = value-put k j v o
value-put_if false k j v o = ground arith

value-put_object :
    (k j : String) (v o : Object)
    → value j (if is_empty_object v then o else put k (obj v) o)
      ≡ (if k == j then (if is_empty_object v then value j o else some (obj v)) else value j o)
value-put_object k j end o = ground arith
value-put_object k j (field i w v) o = value-put k j (obj (field i w v)) o

ruleset member_laws = (value-put_text, value-put_if, value-put_object, value-put)

abbrev int_if_positive : ℤ → Option Json
int_if_positive n = if ltb_ℤ (pos 0) n then some (int n) else none

pub record ReadsRequestor (r : Requestor) (o : Object) : Type 0 where
  pub name : value "name" o ≡ some (str r.name)
  pub icon : value "icon" o ≡ some (str r.icon)
  pub letter : value "fallbackLetter" o ≡ some (str r.fallback_letter)
  pub key : value "fallbackKey" o ≡ text_or_none r.fallback_key
  pub pid : value "pid" o ≡ int_if_positive r.pid

requestor-ReadsRequestor : (c : Context) → ReadsRequestor c.requestor (requestor_to_json c)
unfolding requestor_to_json value
requestor-ReadsRequestor c = record {
  name = simp member_laws;
  icon = simp member_laws;
  letter = simp member_laws;
  key = simp member_laws;
  pid = simp member_laws;
}

-- What is said of a request besides its message and requestor: a text only if it is not empty, and
-- nothing that belongs to another source.
pub record ReadsRequest (action user keyring description keyinfo : Option Json)
    (details cur max confirm repeat : Option Json) (o : Object) : Type 0 where
  pub acted : value "actionId" o ≡ action
  pub owned : value "user" o ≡ user
  pub detailed : value "details" o ≡ details
  pub unlocked : value "keyringName" o ≡ keyring
  pub described : value "description" o ≡ description
  pub keyed : value "keyinfo" o ≡ keyinfo
  pub retried : value "curRetry" o ≡ cur
  pub limited : value "maxRetries" o ≡ max
  pub confirmed : value "confirmOnly" o ≡ confirm
  pub repeated : value "repeat" o ≡ repeat

abbrev object_or_none : Object → Option Json
object_or_none o = if is_empty_object o then none else some (obj o)

abbrev pub ReadsSource : Source → Context → Object → Type 0
ReadsSource polkit c o =
    ReadsRequest (text_or_none c.action_id) (text_or_none c.user) none none none
      (object_or_none c.details) none none none none o
ReadsSource keyring c o =
    ReadsRequest none none (text_or_none c.keyring_name) none none none none none none none o
ReadsSource pinentry c o =
    ReadsRequest none none none (text_or_none c.description) (text_or_none c.keyinfo) none
      (some (int c.cur_retry)) (some (int c.max_retries)) (some (bool c.confirm_only))
      (some (bool c.repeat)) o

pub record ReadsContext (s : Source) (c : Context) (o : Object) : Type 0 where
  pub message : value "message" o ≡ some (str c.message)
  pub requestor : (r : Object) × (value "requestor" o ≡ some (obj r)) × ReadsRequestor c.requestor r
  pub source : ReadsSource s c o

-- The members that every source has.
abbrev base : Context → Object
base c = field "message" (str c.message) (field "requestor" (obj (requestor_to_json c)) end)

polkit-ReadsContext : (c : Context) → ReadsContext polkit c (source_fields polkit c (base c))
unfolding source_fields value
polkit-ReadsContext c = record {
  message = simp member_laws;
  requestor = (requestor_to_json c, simp member_laws, requestor-ReadsRequestor c);
  source = record {
    acted = simp member_laws;
    owned = simp member_laws;
    detailed = simp member_laws;
    unlocked = simp member_laws;
    described = simp member_laws;
    keyed = simp member_laws;
    retried = simp member_laws;
    limited = simp member_laws;
    confirmed = simp member_laws;
    repeated = simp member_laws;
  };
}

keyring-ReadsContext : (c : Context) → ReadsContext keyring c (source_fields keyring c (base c))
unfolding source_fields value
keyring-ReadsContext c = record {
  message = simp member_laws;
  requestor = (requestor_to_json c, simp member_laws, requestor-ReadsRequestor c);
  source = record {
    acted = simp member_laws;
    owned = simp member_laws;
    detailed = simp member_laws;
    unlocked = simp member_laws;
    described = simp member_laws;
    keyed = simp member_laws;
    retried = simp member_laws;
    limited = simp member_laws;
    confirmed = simp member_laws;
    repeated = simp member_laws;
  };
}

pinentry-ReadsContext : (c : Context) → ReadsContext pinentry c (source_fields pinentry c (base c))
unfolding source_fields value
pinentry-ReadsContext c = record {
  message = simp member_laws;
  requestor = (requestor_to_json c, simp member_laws, requestor-ReadsRequestor c);
  source = record {
    acted = simp member_laws;
    owned = simp member_laws;
    detailed = simp member_laws;
    unlocked = simp member_laws;
    described = simp member_laws;
    keyed = simp member_laws;
    retried = simp member_laws;
    limited = simp member_laws;
    confirmed = simp member_laws;
    repeated = simp member_laws;
  };
}

context-ReadsContext :
    (source : Source) (c : Context) → ReadsContext source c (source_fields source c (base c))
context-ReadsContext polkit c = polkit-ReadsContext c
context-ReadsContext keyring c = keyring-ReadsContext c
context-ReadsContext pinentry c = pinentry-ReadsContext c

-- What a reader finds in the announcement of a session.
pub record ReadsCreated (id : String) (source : Source) (c : Context) (e : Object) : Type 0 where
  pub typed : value "type" e ≡ some (str "session.created")
  pub named : value "id" e ≡ some (str id)
  pub sourced : value "source" e ≡ some (str (source_word source))
  pub context : (o : Object) × (value "context" e ≡ some (obj o)) × ReadsContext source c o

word-source : (source : Source) → source_to_string source ≡ source_word source
word-source polkit = refl
word-source keyring = refl
word-source pinentry = refl

pub created-ReadsCreated : (s : Session) → ReadsCreated s.id s.source s.context (to_created_event s)
unfolding to_created_event context_to_json value
created-ReadsCreated s = record {
  typed = refl;
  named = refl;
  sourced = ap (λ t. some (str t)) (word-source s.source);
  context = (
    source_fields s.source s.context (base s.context),
    refl,
    context-ReadsContext s.source s.context,
  );
}

-- What a reader finds at the end of a session.
pub record ReadsClosed (id : String) (result : Result) (text : String) (e : Object) : Type 0 where
  pub typed : value "type" e ≡ some (str "session.closed")
  pub named : value "id" e ≡ some (str id)
  pub ended : value "result" e ≡ some (str (result_word result))
  pub failed : value "error" e ≡ text_or_none text

word-result : (result : Result) → result_to_string result ≡ result_word result
word-result success = refl
word-result cancelled = refl
word-result error = refl

pub closed-ReadsClosed :
    (s : Session) (result : Result)
    → s.result ≡ some result
    → ReadsClosed s.id result s.error_text (to_closed_event s)
unfolding to_closed_event value put
closed-ReadsClosed s result h = record {
  typed = simp (value-put_text);
  named = simp (value-put_text);
  ended = simp value-put_text (rw h (ap (λ t. some (str t)) (word-result result)));
  failed = simp (value-put_text);
}
