-- ===== src/Bus/Payloads.antt =====
-- src/eventbus.rs: what an event may carry to Kafka. `to_vec` is serde's encoding, `decimal` writes
-- a number. The fields of an object come in serde's order.
pub mod Checked
use rust_zap.Prelude.{
  ℕ, suc, String, ◌<>◌, ◌≡◌, refl, ◌∙◌, ap, Bool, true, false, ◌||◌, Option, none, some, List, [],
  ◌∷◌, length, ltb, is_some, or_else, ◌⊎◌, inl, inr, Bool-cases, if◌then◌else◌, arith,
}
use rust_zap.Dict.{◌==◌, string_eq}
use rust_zap.Text.{is_empty}
use rust_zap.Json.{
  Value, Fields, Items, null, boolean, pos_int, neg_int, float, str, obj, arr, end, field, nil,
  cons,
}
use rust_zap.Models.{CommonEvent}
use rust_zap.Config.{KafkaConfig}
use rust_zap.Bus.{EventBusError, raw_media_bytes, message_too_large, codec, DeadLetterEnvelope}

abbrev pub is_bytes_key : String → Bool
is_bytes_key key = key == "bytes" || key == "file_bytes" || key == "raw_media" || key == "body"

unfoldable mutual
  pub contains_bytes : Value → Bool
  contains_bytes (obj map) = field_has_bytes map
  contains_bytes (arr items) = item_has_bytes items
  contains_bytes null = false
  contains_bytes (boolean b) = false
  contains_bytes (pos_int n) = false
  contains_bytes (neg_int n) = false
  contains_bytes (float t) = false
  contains_bytes (str t) = false

  pub field_has_bytes : Fields → Bool
  field_has_bytes end = false
  field_has_bytes (field key value rest) =
      is_bytes_key key || contains_bytes value || field_has_bytes rest

  pub item_has_bytes : Items → Bool
  item_has_bytes nil = false
  item_has_bytes (cons value rest) = contains_bytes value || item_has_bytes rest

abbrev pub event_has_raw_media_bytes : CommonEvent → Bool
event_has_raw_media_bytes event = contains_bytes event.payload

abbrev pub child_path : String → String → String
child_path path key = if is_empty path then key else path <> ("." <> key)

-- A payload is refused where serde fails and above the limit.
abbrev pub sized : KafkaConfig → String → List ℕ ⊎ String → List ℕ ⊎ EventBusError
sized kafka event_id (inr error) = inr (codec error)
sized kafka event_id (inl bytes) =
    if ltb kafka.message_max_bytes (length bytes)
    then inr (message_too_large event_id (length bytes) kafka.message_max_bytes)
    else inl bytes

-- What the two encodings share: `found` is the field with bytes.
abbrev pub encoded :
    KafkaConfig → String → (found : Option String) → List ℕ ⊎ String → List ℕ ⊎ EventBusError
encoded kafka event_id (some path) vec = inr (raw_media_bytes event_id path)
encoded kafka event_id none vec = sized kafka event_id vec

module _ (decimal : ℕ → String) where
  unfoldable mutual
    pub find : Value → (path : String) → Option String
    find (obj map) path = find_in_fields map path
    find (arr items) path = find_in_items 0 items path
    find null path = none
    find (boolean b) path = none
    find (pos_int n) path = none
    find (neg_int n) path = none
    find (float t) path = none
    find (str t) path = none

    pub find_in_fields : Fields → (path : String) → Option String
    find_in_fields end path = none
    find_in_fields (field key value rest) path =
        let later = or_else (find value (child_path path key)) (find_in_fields rest path) in
        if is_bytes_key key then some (child_path path key) else later

    pub find_in_items : ℕ → Items → (path : String) → Option String
    find_in_items index nil path = none
    find_in_items index (cons value rest) path =
        or_else (find value (path <> ("[" <> (decimal index <> "]"))))
          (find_in_items (suc index) rest path)

  unfoldable pub raw_media_field : Value → Option String
  raw_media_field value = find value ""

  unfoldable pub encode_event_for_kafka :
      (to_vec : CommonEvent → List ℕ ⊎ String) → KafkaConfig → CommonEvent → List ℕ ⊎ EventBusError
  encode_event_for_kafka to_vec kafka event =
      encoded kafka event.event_id (raw_media_field event.payload) (to_vec event)

  unfoldable pub encode_deadletter_for_kafka :
      (to_vec : DeadLetterEnvelope → List ℕ ⊎ String)
      → KafkaConfig
      → DeadLetterEnvelope
      → List ℕ ⊎ EventBusError
  encode_deadletter_for_kafka to_vec kafka envelope =
      encoded kafka envelope.event.event_id (raw_media_field envelope.event.payload)
        (to_vec envelope)

-- `decode_event_from_kafka`
abbrev pub decode_event_from_kafka :
    (from_slice : List ℕ → CommonEvent ⊎ String) → List ℕ → CommonEvent ⊎ EventBusError
decode_event_from_kafka from_slice bytes = elim (from_slice bytes) [
  | inl event ↦ inl event
  | inr error ↦ inr (codec error)
]
