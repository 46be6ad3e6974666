-- ===== src/SessionStore/Content.antt =====
-- The store as a finite map: what each operation does to what is found under every id.
use bb_auth.Prelude.{
  ◌≡◌, refl, Bool, Option, none, some, String, arith, if◌then◌else◌, ◌==◌, string_eq, eq_iff,
}
use bb_auth.Prelude.Hash.{find, find-insert, find-remove}
use bb_auth.Json.{Object}
use bb_auth.Session
use bb_auth.Session.{
  Source, Context, Result, set_prompt, set_error, set_info, close, to_created_event,
  to_updated_event, to_closed_event,
}
use bb_auth.SessionStore.{
  Sessions, create_session, update_prompt, update_error, update_info, close_session,
}

-- The store after an operation on one id: under that id `here`, elsewhere as it was.
abbrev pub OnlyChanges : String → Option Session.Session → Sessions → Sessions → Type 0
OnlyChanges id here m m' = (j : String) → find j m' ≡ (if id == j then here else find j m)

-- The operations that may send an event.
pub data Op : Type 0 where
  creates : Source → Context → Op
  prompts : String → Bool → Bool → Op
  fails informs : String → Op
  closes : Result → Op

abbrev pub run : Op → Sessions → String → Option Object × Sessions
run (creates source context) m id = create_session m id source context
run (prompts text echo clear) m id = update_prompt m id text echo clear
run (fails text) m id = update_error m id text
run (informs text) m id = update_info m id text
run (closes result) m id = close_session m id result

-- The operations on what is stored under one id: what is stored after, and the event.
abbrev pub spec : Op → String → Option Session.Session → Option Session.Session × Option Object
spec (creates source context) id none =
    let s = Session.create id source context in (some s, some (to_created_event s))
spec (creates source context) id (some s) = (some s, none)
spec op id none = (none, none)
spec (prompts text echo clear) id (some s) =
    let t = set_prompt s text echo clear in (some t, some (to_updated_event t))
spec (fails text) id (some s) = let t = set_error s text in (some t, some (to_updated_event t))
spec (informs text) id (some s) = let t = set_info s text in (some t, some (to_updated_event t))
spec (closes result) id (some s) = (none, some (to_closed_event (close s result)))

pub run-spec :
    (op : Op) (m : Sessions) (id : String) (o : Option Session.Session)
    → find id m ≡ o
    → ((run op m id).0 ≡ (spec op id o).1) × OnlyChanges id (spec op id o).0 m (run op m id).1
unfolding create_session update_prompt update_error update_info close_session
run-spec (creates source context) m id none h =
    (ground arith, λ j. ground (arith, find-insert id j (Session.create id source context) m))
run-spec (creates source context) m id (some s) h = (ground arith, λ j. ground (arith, eq_iff id j))
run-spec (prompts text echo clear) m id none h = (ground arith, λ j. ground (arith, eq_iff id j))
run-spec (prompts text echo clear) m id (some s) h =
    (ground arith, λ j. ground (arith, find-insert id j (set_prompt s text echo clear) m))
run-spec (fails text) m id none h = (ground arith, λ j. ground (arith, eq_iff id j))
run-spec (fails text) m id (some s) h =
    (ground arith, λ j. ground (arith, find-insert id j (set_error s text) m))
run-spec (informs text) m id none h = (ground arith, λ j. ground (arith, eq_iff id j))
run-spec (informs text) m id (some s) h =
    (ground arith, λ j. ground (arith, find-insert id j (set_info s text) m))
run-spec (closes result) m id none h = (ground arith, λ j. ground (arith, eq_iff id j))
run-spec (closes result) m id (some s) h = (ground arith, λ j. ground (arith, find-remove id j m))

pub run-stores :
    (op : Op) (m : Sessions) (id : String)
    → let (here, event) = spec op id (find id m) in
      ((run op m id).0 ≡ event) × OnlyChanges id here m (run op m id).1
run-stores op m id = run-spec op m id (find id m) refl
