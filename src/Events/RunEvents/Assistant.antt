-- ===== src/Events/RunEvents/Assistant.antt =====
-- `finalAssistantText` of src/run-events.ts.
use Prim.Native.String
use deepseek_harness_relay_m.Base.{
  String, Option, none, some, List, [], ◌∷◌, ◌++◌, ◌==◌, string_eq, if◌then◌else◌,
}
use deepseek_harness_relay_m.Types.{RpcEvent}
use deepseek_harness_relay_m.Types.Json.{
  Fields, Elements, Value, string, object, array, nil, cons, at, string_at, object_at,
}

-- `message?.content ?? event.data.content`; a field that is null counts as missing.
abbrev or_value : Option Value → Option Value → Option Value
or_value none d = d
or_value (some Value.null) d = d
or_value (some v) d = some v

abbrev content_in : Option Fields → Option Value
content_in none = none
content_in (some message) = at message "content"

text_of : Option String → Option String → List String
text_of (some kind) (some text) = if kind == "text" then text ∷ [] else []
text_of _ _ = []

-- The text of a block, if it has one.
block_text : Value → List String
unfolding text_of string_at
block_text (object block) = text_of (string_at block "type") (string_at block "text")
block_text v = []

pub block_texts : Elements → List String
unfolding block_text
block_texts nil = []
block_texts (cons v rest) = block_text v ++ block_texts rest

pub join_with : String → List String → String
join_with separator [] = ""
join_with separator (s ∷ []) = s
join_with separator (s ∷ (t ∷ rest)) =
    String.◌++◌ s (String.◌++◌ separator (join_with separator (t ∷ rest)))

joined : List String → List String
unfolding join_with
joined [] = []
joined (s ∷ rest) = join_with "\n" (s ∷ rest) ∷ []

-- The text of one message, if it has any.
message_text : Option Value → List String
unfolding joined block_texts
message_text (some (string text)) = joined (text ∷ [])
message_text (some (array blocks)) = joined (block_texts blocks)
message_text _ = []

pub message_texts : List RpcEvent → List String
unfolding message_text object_at at
message_texts [] = []
message_texts (e ∷ events) =
    (if e.type == "assistant/message"
      then message_text
          (or_value (content_in (object_at e.payload "message")) (at e.payload "content"))
      else [])
    ++ message_texts events

unfoldable pub final_assistant_text : List RpcEvent → String
unfolding join_with message_texts
final_assistant_text events = join_with "\n\n" (message_texts events)
