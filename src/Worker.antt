-- ===== src/Worker.antt =====
-- app/notifications: the loop of worker.py over the handler of handlers/email_handler.py and the
-- renderers of templates.py. The SMTP server is a parameter.
pub mod Attempts
pub mod Draining
pub mod Queue
use super_wallet.Base.{
  map_option, map, ℕ, String, str_eq, ◌+◌, leb, Option, none, some, List, [], ◌∷◌, if◌then◌else◌,
}
use super_wallet.Db.{
  Timestamp, Uuid, Value, text, texts, Json, Action, pure, transaction, ◌>>=◌, ◌>>◌,
}
use super_wallet.Outbox.{OutboxEventRecord, fetch_pending, mark_done, mark_failed, reset_to_pending}
use Prim.Native.String.{◌++◌ as append}

-- What `send_raw_email` is called with.
pub record Email : Type 0 where
  pub to : Value
  pub subject : String
  pub html_body : String

-- One pass of the loop, as it meets the world: the clock of the database, `str` of a payload's
-- value, and what sending an email for an event raises, by its text.
pub record Pass : Type 0 where
  pub now : Timestamp
  pub str : Value → String
  pub send_raw_email : Uuid → Email → Option String

-- A call that ends with a value, or with an exception of that text.
pub data Outcome (A : Type 0) : Type 0 where
  returned : A → Outcome A
  raised : String → Outcome A

module _ {A B : Type 0} where
  abbrev pub and_then : Outcome A → (A → Outcome B) → Outcome B
  and_then (returned a) f = f a
  and_then (raised message) f = raised message

-- `payload[key]`, or `KeyError`.
unfoldable pub get_item : Json → String → Outcome Value
get_item [] key = raised (append "'" (append key "'"))
get_item ((k, v) ∷ rest) key =
    let later = get_item rest key in if str_eq k key then returned v else later

abbrev pub anchor : String → String
anchor link = append "<a href='" (append link (append "'>" (append link "</a></p>")))

unfoldable pub render_email_verification : (Value → String) → Json → Outcome (String × String)
render_email_verification str payload = and_then (get_item payload "token") λ token.
    let link = append "https://superwallet.app/verify-email?token=" (str token) in
    returned ("Email salgyňyzy tassyklaň", append "<p>Tassyklamak üçin basyň: " (anchor link))

unfoldable pub render_password_reset : (Value → String) → Json → Outcome (String × String)
render_password_reset str payload = and_then (get_item payload "token") λ token.
    let link = append "https://superwallet.app/reset-password?token=" (str token) in
    returned ("Parol täzelemek", append "<p>Parolyňyzy täzelemek üçin basyň: " (anchor link))

abbrev pub unknown_template : (Value → String) → Value → Outcome (String × String)
unknown_template str name = raised (append "Näbelli email template: " (str name))

-- `EMAIL_TEMPLATE_RENDERERS.get(template_name)`, applied; a list is no key of a dictionary.
unfoldable pub render : (Value → String) → Value → Json → Outcome (String × String)
render str (text name) payload =
    if str_eq name "email_verification"
    then render_email_verification str payload
    else (if str_eq name "password_reset"
        then render_password_reset str payload
        else unknown_template str (text name))
render str (texts names) payload = raised "unhashable type: 'list'"
render str name payload = unknown_template str name

abbrev sent : Option String → Outcome Unit
sent none = returned tt
sent (some message) = raised message

unfoldable pub handle_email_event : Pass → Uuid → Json → Outcome Unit
handle_email_event pass event_id payload = and_then (get_item payload "template") λ template_name.
    and_then (render pass.str template_name payload) λ rendered.
      and_then (get_item payload "to") λ to. sent (
        pass.send_raw_email event_id
          (record { to = to; subject = rendered.0; html_body = rendered.1 }))

abbrev pub max_attempts : ℕ
max_attempts = 5

-- The end of the `try` statement: `mark_done`, or its `except` clause.
unfoldable pub conclude : Timestamp → OutboxEventRecord → Outcome Unit → Action Unit
conclude now event (returned _) = mark_done now event.id
conclude now event (raised message) =
    let new_attempts = event.attempts + 1 in
    if leb max_attempts new_attempts
    then mark_failed event.id message new_attempts
    else reset_to_pending event.id new_attempts

-- `HANDLERS` has the one key `email`.
unfoldable pub process_one : Pass → OutboxEventRecord → Action Unit
process_one pass event =
    if str_eq event.event_type "email"
    then conclude pass.now event (handle_email_event pass event.id event.payload)
    else mark_failed event.id "no_handler" (event.attempts + 1)

unfoldable pub process_all : Pass → List OutboxEventRecord → Action Unit
process_all pass [] = pure tt
process_all pass (event ∷ events) = process_one pass event >> process_all pass events

unfoldable pub poll : Pass → Action Unit
poll pass = transaction (do events ← fetch_pending 50; process_all pass events)

-- The loop for the passes that it makes before it is stopped.
unfoldable pub run_worker : List Pass → Action Unit
run_worker [] = pure tt
run_worker (pass ∷ passes) = poll pass >> run_worker passes
