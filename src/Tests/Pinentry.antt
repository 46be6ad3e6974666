-- ===== src/Tests/Pinentry.antt =====
-- Runs of pinentry with a daemon.
use bb_auth.Prelude.{suc, refl, false, some, String, List, [], ◌∷◌, not, ◌==◌, string_eq, Option}
use bb_auth.Prelude.Int.{pos}
use bb_auth.Prelude.Hash.{find}
use bb_auth.Json.{Object, str, field, end, value}
use bb_auth.Agent.Loop.{new_agent}
use bb_auth.Agent.Pinentry.{read_request, handle_request, handle_response, validate_result_owner}
use bb_auth.Modes.Pinentry.{PinentrySession, new_session, Call, ensure_flow_cookie}
use bb_auth.Modes.Pinentry.Daemon.{password_request, text_or}
use bb_auth.Modes.Pinentry.Commands.{Codec, run, handle_get_pin}
use bb_auth.Modes.Pinentry.Protocol.{Ends, closed}
use bb_auth.Modes.Pinentry.Protocol.Run.{run-IsProtocol}
use bb_auth.Modes.Pinentry.Replies.{Answers, heard, printed, run-Answers}
use bb_auth.Modes.Pinentry.Delivery.{
  IsReadAs, IsDelivered, password_request-IsRead, get_pin-IsDelivered, IsTornApart,
  empty_pin-IsTornApart,
}
use bb_auth.Tests.Fixtures.{world}
use bb_auth.Tests.Modes.{to_int, to_int-ReadsHex}

abbrev codec : Codec
codec = record {
  pid = "7";
  equal_ci = λ s r. s == r;
  to_utf16 = λ s. 49 ∷ 37 ∷ [];
  from_utf16 = λ s. "text";
  to_int = to_int;
}

-- The daemon's response, once the passphrase is given.
abbrev reply_to : Object → Option Object
reply_to q =
    some
      (handle_response (world 21000) (handle_request (world 20000) new_agent q 2 (pos 20)) "u"
        "1%").0

abbrev call : Call
call = record { uuid = "u"; send_request = reply_to }

abbrev lines : List (Call × String)
lines = (call, "SETDESC Unlock") ∷ (call, "") ∷ (call, "GETPIN") ∷ (call, "BYE") ∷ []

abbrev opened : PinentrySession
opened = record new_session { flow_cookie = "u" }

run-IsProtocol_example : Ends closed (run codec lines call)
run-IsProtocol_example = run-IsProtocol codec lines call (refl, (refl, (refl, (refl, tt))))

run-Answers_example : Answers (suc (heard codec lines)) (printed (run codec lines call).0)
run-Answers_example = run-Answers codec lines call

password_request-IsRead_example :
    IsReadAs opened
      (read_request (world 20000) (password_request opened) 2 (pos 20))
      (text_or opened.state.prompt "Enter passphrase:")
      opened.state.description
      opened.state.error
      opened.state.keyinfo
      (not (opened.state.repeat == ""))
      false
password_request-IsRead_example = password_request-IsRead (world 20000) opened 2 (pos 20) refl

get_pin-IsDelivered_example :
    IsDelivered codec
      (handle_get_pin codec call new_session)
      (ensure_flow_cookie call new_session).flow_cookie
      "1%"
unfolding ensure_flow_cookie validate_result_owner find
get_pin-IsDelivered_example =
    get_pin-IsDelivered (world 20000) (world 21000) new_agent 2 (pos 20) codec call new_session "1%"
      to_int-ReadsHex refl refl refl refl refl

abbrev empty_answer : Object
empty_answer =
    field "type" (str "pinentry_response")
      (field "result" (str "ok") (field "password" (str "") end))

abbrev empty_call : Call
empty_call = record { uuid = "u"; send_request = λ q. some empty_answer }

empty_pin-IsTornApart_example :
    IsTornApart empty_call
      (handle_get_pin codec empty_call new_session)
      (ensure_flow_cookie empty_call new_session).flow_cookie
unfolding value
empty_pin-IsTornApart_example =
    empty_pin-IsTornApart codec empty_call empty_call new_session empty_answer refl refl refl refl
      refl
