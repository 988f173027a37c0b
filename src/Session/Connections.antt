-- ===== src/Session/Connections.antt =====
-- Tests of the model of the connector's sessions of src/tfr/sessions.py, and its theorems at a concrete
-- bridge.
use tfr.Base.{ℕ, pos, ◌≡◌, refl, List, [], ◌∷◌, ◌++◌, map, concat, codes, All, text_eq}
use tfr.Json.{Value, Fields, int, text, field, end, get_or}
use tfr.Dict.{lookup, insert}
use tfr.Session.{WorldSession, publish}
use tfr.Session.Examples.{tests, fresh, fresh-IsNumbered}
use tfr.Session.Connector.{
  Bridge, acknowledges, acknowledges_overflow, receive, handle_connector_event, is_text,
}
use tfr.Session.Bridging.{receive_all, notice, receive_all-notice}
use tfr.Session.Bridged.{IsWellNumbered, receive_all-IsNumbered}

abbrev bridge : Bridge
bridge = record { sessions = (codes "mush", fresh) ∷ []; sent = [] }

-- An event of Telnet for a world, with its number.
abbrev telnet_event : List ℕ → ℕ → Fields
telnet_event world sequence = field (codes "type") (text (codes "world_event")) (
    field (codes "world") (text world) (
      field (codes "sequence") (int (pos sequence)) (
        field (codes "kind") (text (codes "telnet"))
          (field (codes "generation") (int (pos 3)) end))))

abbrev overflow : Fields
overflow =
    field (codes "type") (text (codes "overflow"))
      (field (codes "world") (text (codes "mush")) (field (codes "notice_id") (int (pos 5)) end))

abbrev messages : List Fields
messages = telnet_event (codes "mush") 1 ∷ telnet_event (codes "gone") 2 ∷ overflow ∷ []

abbrev shown : Value → List ℕ
shown v = []

notice-acknowledges :
    concat (map notice messages)
    ≡ acknowledges (codes "mush") (pos 1)
      ∷ acknowledges (codes "gone") (pos 2)
      ∷ acknowledges_overflow (pos 5)
      ∷ []
unfolding get_or is_text text_eq
notice-acknowledges = refl

receive_all-notice_example :
    (receive_all tests shown messages bridge).0.sent ≡ bridge.sent ++ concat (map notice messages)
unfolding receive handle_connector_event get_or is_text text_eq lookup insert publish
receive_all-notice_example = receive_all-notice tests shown messages bridge refl

receive_all-IsNumbered_example :
    All
      (λ (item : List ℕ × WorldSession). IsWellNumbered item.1)
      (receive_all tests shown messages bridge).0.sessions
receive_all-IsNumbered_example =
    receive_all-IsNumbered tests shown messages bridge (fresh-IsNumbered, tt)
