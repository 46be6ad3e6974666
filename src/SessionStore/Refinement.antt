-- ===== src/SessionStore/Refinement.antt =====
-- The store does what is specified of what it shows.
use bb_auth.Prelude.{
  ◌≡◌, refl, sym, ap, ◌∙◌, subst, zero, suc, Bool, true, false, Option, none, some, String, arith,
  if◌then◌else◌, ◌==◌, string_eq, Bool-cases, inl, inr, eq_iff,
}
use bb_auth.Prelude.Int.{ℤ, pos, negsuc, pos_part, ltb_ℤ}
use bb_auth.Prelude.Hash.{find, find-insert}
use bb_auth.Session
use bb_auth.Session.{
  Source, polkit, keyring, pinentry, Context, Result, success, cancelled, error, Session,
  is_pinentry, set_pinentry_retry,
}
use bb_auth.Session.Created.{created-ReadsCreated, ReadsClosed, closed-ReadsClosed}
use bb_auth.Session.Lifecycle.{ReadsUpdate, updated-ReadsUpdate}
use bb_auth.SessionStore.{Sessions, update_pinentry_retry}
use bb_auth.SessionStore.Content.{Op, creates, prompts, fails, informs, closes, spec, run-spec}
use bb_auth.SessionStore.Shown.{
  Shown, shown_of, viewed, view, Call, sends, retries, event, perform, limit, recounted, accepted,
  last_failure, next, session_of, Tells,
}

spec-shown :
    (op : Op) (id : String) (o : Option Session)
    → viewed (spec op id o).0 ≡ (next (sends op) id (viewed o)).1
unfolding Session.create Session.set_prompt Session.set_error Session.set_info
spec-shown (creates source about) id none = refl
spec-shown (creates source about) id (some s) = refl
spec-shown (prompts text echo clear) id none = refl
spec-shown (fails text) id none = refl
spec-shown (informs text) id none = refl
spec-shown (closes result) id none = refl
spec-shown (prompts text echo clear) id (some s) = refl
spec-shown (fails text) id (some s) = refl
spec-shown (informs text) id (some s) = refl
spec-shown (closes result) id (some s) = refl

-- An update says of a session what is shown of it.
updated-shown : (s : Session) → ReadsUpdate (session_of (shown_of s)) (Session.to_updated_event s)
updated-shown s =
    let h = updated-ReadsUpdate s in
    record {
      typed = h.typed;
      named = h.named;
      prompted = h.prompted;
      echoed = h.echoed;
      failed = h.failed;
      informed = h.informed;
      retried = h.retried;
      limited = h.limited;
    }

closed-Tells :
    (s : Session) (result : Result)
    → ReadsClosed s.id result
        (last_failure result (shown_of s))
        (Session.to_closed_event (Session.close s result))
unfolding Session.close
closed-Tells s success = closed-ReadsClosed (Session.close s success) success refl
closed-Tells s cancelled = closed-ReadsClosed (Session.close s cancelled) cancelled refl
closed-Tells s error = closed-ReadsClosed (Session.close s error) error refl

spec-Tells :
    (op : Op) (id : String) (o : Option Session)
    → Tells (next (sends op) id (viewed o)).0 (event (spec op id o).1)
unfolding Session.create Session.set_prompt Session.set_error Session.set_info
spec-Tells (creates source about) id none = created-ReadsCreated (Session.create id source about)
spec-Tells (creates source about) id (some s) = refl
spec-Tells (prompts text echo clear) id none = refl
spec-Tells (fails text) id none = refl
spec-Tells (informs text) id none = refl
spec-Tells (closes result) id none = refl
spec-Tells (prompts text echo clear) id (some s) =
    updated-shown (Session.set_prompt s text echo clear)
spec-Tells (fails text) id (some s) = updated-shown (Session.set_error s text)
spec-Tells (informs text) id (some s) = updated-shown (Session.set_info s text)
spec-Tells (closes result) id (some s) = closed-Tells s result

viewed-if :
    (b : Bool) (o p : Option Session)
    → viewed (if b then o else p) ≡ (if b then viewed o else viewed p)
viewed-if true o p = refl
viewed-if false o p = refl

-- What a call does on one id, with what was stored there.
abbrev pub Follows : Call → Sessions → String → Option Shown → Type 0
Follows c m id before =
    Tells (next c id before).0 (perform c m id).0
    × ((j : String)
        → view (perform c m id).1 j ≡ (if id == j then (next c id before).1 else view m j))

sends-Follows : (op : Op) (m : Sessions) (id : String) → Follows (sends op) m id (view m id)
sends-Follows op m id =
    let o = find id m in
    let (told, changed) = run-spec op m id o refl in
    (
      subst (λ e. Tells (next (sends op) id (viewed o)).0 (event e)) (sym told)
          (spec-Tells op id o),
      λ j.
          ap viewed (changed j)
          ∙ viewed-if (id == j) (spec op id o).0 (find j m)
          ∙ ap (λ v. if id == j then v else view m j) (spec-shown op id o),
    )

-- The specified counters, if the session is one of pinentry.
recounted-pinentry :
    (source : Source) (cur max : ℤ) (v : Shown)
    → is_pinentry source ≡ true
    → recounted source cur max v ≡ recounted pinentry cur max v
recounted-pinentry pinentry cur max v h = refl
recounted-pinentry polkit cur max v h = cc
recounted-pinentry keyring cur max v h = cc

recounted-other :
    (source : Source) (cur max : ℤ) (v : Shown)
    → is_pinentry source ≡ false
    → recounted source cur max v ≡ (accepted false, some v)
recounted-other pinentry cur max v h = cc
recounted-other polkit cur max v h = refl
recounted-other keyring cur max v h = refl

clamped_cur : (cur : ℤ) → (if ltb_ℤ cur (pos 0) then pos 0 else cur) ≡ pos (pos_part cur)
clamped_cur (pos n) = ground arith
clamped_cur (negsuc n) = ground arith

clamped_max : (max : ℤ) → (if ltb_ℤ (pos 0) max then max else pos 3) ≡ limit max
clamped_max (pos zero) = refl
clamped_max (pos (suc n)) = ground arith
clamped_max (negsuc n) = ground arith

retried-shown :
    (s : Session) (cur max : ℤ)
    → is_pinentry s.source ≡ true
    → recounted s.source cur max (shown_of s)
      ≡ (accepted true, some (shown_of (set_pinentry_retry s cur max)))
unfolding set_pinentry_retry
retried-shown s cur max h =
    recounted-pinentry s.source cur max (shown_of s) h
    ∙ rw (h, clamped_cur cur, clamped_max max) refl

retries-Follows :
    (cur max : ℤ) (m : Sessions) (id : String) (o : Option Session)
    → find id m ≡ o
    → Follows (retries cur max) m id (viewed o)
unfolding update_pinentry_retry
retries-Follows cur max m id none e = rw e (refl, λ j. ground (arith, e, eq_iff id j))
retries-Follows cur max m id (some s) e = elim (Bool-cases (is_pinentry s.source)) [
  | inl p ↦
      rw (e, p, retried-shown s cur max p)
        (
          refl,
          λ j.
              ap viewed (find-insert id j (set_pinentry_retry s cur max) m)
              ∙ viewed-if (id == j) (some (set_pinentry_retry s cur max)) (find j m),
        )
  | inr p ↦
      rw (e, p, recounted-other s.source cur max (shown_of s) p)
        (refl, λ j. ground (arith, e, eq_iff id j))
]

-- Every call of the store does what the specification says of what is shown under its id. What it
-- returns is the announcement: for a new session its id, source and context, for an update the
-- session as it is shown then, for the end its result and last error; nothing for a missing id or a
-- duplicate creation; and for the retry counters, which only a session of pinentry has, whether there
-- is one. What is shown under the id afterwards is as specified, and under no other id it changes.
pub run-refines :
    (c : Call) (m : Sessions) (id : String)
    → Tells (next c id (view m id)).0 (perform c m id).0
      × ((j : String)
          → view (perform c m id).1 j ≡ (if id == j then (next c id (view m id)).1 else view m j))
run-refines (sends op) m id = sends-Follows op m id
run-refines (retries cur max) m id = retries-Follows cur max m id (find id m) refl
