-- ===== src/Session/Lifecycle.antt =====
-- What a session's events say, and what its operations keep.
use bb_auth.Prelude.{
  ◌≡◌, Bool, true, Option, none, some, String, arith, if◌then◌else◌, inl, inr, Bool-cases, ◌==◌,
  string_eq,
}
use bb_auth.Prelude.Int.{ℤ, pos, ◌≤ℤ◌}
use bb_auth.Json.{Json, Object, str, int, bool, value, put, value-put}
use bb_auth.Session.{Session, set_pinentry_retry, to_updated_event, is_pinentry, put_text}

pub value-put_text :
    (k j t : String) (o : Object)
    → value j (put_text k t o)
      ≡ (if k == j then (if t == "" then value j o else some (str t)) else value j o)
value-put_text k j t o = ground (arith, value-put k j (str t) o)

-- A text that is written only if it is not empty.
abbrev pub text_or_none : String → Option Json
text_or_none t = if t == "" then none else some (str t)

abbrev pub int_if : Bool → ℤ → Option Json
int_if b n = if b then some (int n) else none

-- What a reader finds in an update: the type, id, prompt and echo of the session, its error and info
-- exactly if they are not empty, and the retry counters exactly for a pinentry session.
pub record ReadsUpdate (s : Session) (e : Object) : Type 0 where
  pub typed : value "type" e ≡ some (str "session.updated")
  pub named : value "id" e ≡ some (str s.id)
  pub prompted : value "prompt" e ≡ some (str s.prompt)
  pub echoed : value "echo" e ≡ some (bool s.echo)
  pub failed : value "error" e ≡ text_or_none s.error_text
  pub informed : value "info" e ≡ text_or_none s.info
  pub retried : value "curRetry" e ≡ int_if (is_pinentry s.source) s.context.cur_retry
  pub limited : value "maxRetries" e ≡ int_if (is_pinentry s.source) s.context.max_retries

pub updated-ReadsUpdate : (s : Session) → ReadsUpdate s (to_updated_event s)
unfolding to_updated_event value put
updated-ReadsUpdate s = elim (Bool-cases (is_pinentry s.source)) [
  | inl p ↦ record {
    typed = simp (value-put_text, p);
    named = simp (value-put_text, p);
    prompted = simp (value-put_text, p);
    echoed = simp (value-put_text, p);
    failed = simp (value-put_text, p);
    informed = simp (value-put_text, p);
    retried = simp (value-put_text, p);
    limited = simp (value-put_text, p);
  }
  | inr p ↦ record {
    typed = simp (value-put_text, p);
    named = simp (value-put_text, p);
    prompted = simp (value-put_text, p);
    echoed = simp (value-put_text, p);
    failed = simp (value-put_text, p);
    informed = simp (value-put_text, p);
    retried = simp (value-put_text, p);
    limited = simp (value-put_text, p);
  }
]

-- The retry counters of a pinentry session can be shown: the current one is not negative, and the
-- limit is at least 1.
abbrev pub HasSaneRetries : Session → Type 0
HasSaneRetries s = (pos 0 ≤ℤ s.context.cur_retry) × (pos 1 ≤ℤ s.context.max_retries)

pub set_pinentry_retry-HasSaneRetries :
    (s : Session) (cur max : ℤ)
    → is_pinentry s.source ≡ true
    → HasSaneRetries (set_pinentry_retry s cur max)
unfolding set_pinentry_retry
set_pinentry_retry-HasSaneRetries s cur max h = ground arith
