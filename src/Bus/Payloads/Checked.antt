-- ===== src/Bus/Payloads/Checked.antt =====
-- src/eventbus.rs: the checks of `encode_event_for_kafka`: the search that answers whether there
-- are bytes of media, the one that names their field, and the limit on the size.
use rust_zap.Prelude.{
  ℕ, suc, ◌≤◌, ◌<◌, String, ◌<>◌, ◌≡◌, refl, sym, ◌∙◌, true, false, ◌||◌, Option, none, some, List,
  length, ltb, ltb→lt, is_some, or_else, ◌⊎◌, inl, inr, Bool-cases, arith,
}
use rust_zap.Json.{
  Value, Fields, Items, null, boolean, pos_int, neg_int, float, str, obj, arr, end, field, nil,
  cons,
}
use rust_zap.Models.{CommonEvent}
use rust_zap.Config.{KafkaConfig}
use rust_zap.Bus.{EventBusError, raw_media_bytes, message_too_large, codec}
use rust_zap.Bus.Payloads.{
  is_bytes_key, contains_bytes, field_has_bytes, item_has_bytes, event_has_raw_media_bytes,
  child_path, find, find_in_fields, find_in_items, raw_media_field, sized, encoded,
  encode_event_for_kafka,
}

is_some-or_else : {A : Type 0} (a b : Option A) → is_some (or_else a b) ≡ (is_some a || is_some b)
is_some-or_else none b = refl
is_some-or_else (some a) b = refl

module _ (decimal : ℕ → String) where
  mutual
    unfolding contains_bytes find

    found_value : (v : Value) (path : String) → is_some (find decimal v path) ≡ contains_bytes v
    found_value (obj map) path = found_field map path
    found_value (arr items) path = found_item 0 items path
    found_value null path = refl
    found_value (boolean b) path = refl
    found_value (pos_int n) path = refl
    found_value (neg_int n) path = refl
    found_value (float t) path = refl
    found_value (str t) path = refl

    found_field :
        (map : Fields) (path : String)
        → is_some (find_in_fields decimal map path) ≡ field_has_bytes map
    found_field end path = refl
    found_field (field key value rest) path = elim (Bool-cases (is_bytes_key key)) [
      | inl bytes ↦ rw bytes refl
      | inr other ↦ rw other (
          is_some-or_else (find decimal value (child_path path key))
            (find_in_fields decimal rest path)
          ∙ cc (found_value value (child_path path key), found_field rest path))
    ]

    found_item :
        (index : ℕ) (items : Items) (path : String)
        → is_some (find_in_items decimal index items path) ≡ item_has_bytes items
    found_item index nil path = refl
    found_item index (cons value rest) path =
        let at = path <> ("[" <> (decimal index <> "]")) in
        is_some-or_else (find decimal value at) (find_in_items decimal (suc index) rest path)
        ∙ cc (found_value value at, found_item (suc index) rest path)

  raw_media_field-found : (v : Value) → is_some (raw_media_field decimal v) ≡ contains_bytes v
  unfolding raw_media_field
  raw_media_field-found v = found_value v ""

  -- What an encoding answers for an event.
  abbrev pub IsChecked : KafkaConfig → CommonEvent → List ℕ ⊎ EventBusError → Type 0
  IsChecked kafka event (inl bytes) =
      (event_has_raw_media_bytes event ≡ false) × (length bytes ≤ kafka.message_max_bytes)
  IsChecked kafka event (inr (raw_media_bytes event_id at)) =
      (event_has_raw_media_bytes event ≡ true)
      × (raw_media_field decimal event.payload ≡ some at)
      × (event_id ≡ event.event_id)
  IsChecked kafka event (inr (message_too_large event_id actual limit)) =
      (event_has_raw_media_bytes event ≡ false)
      × (kafka.message_max_bytes < actual)
      × (limit ≡ kafka.message_max_bytes)
      × (event_id ≡ event.event_id)
  IsChecked kafka event (inr (codec error)) = event_has_raw_media_bytes event ≡ false
  IsChecked kafka event (inr other) = true ≡ false

  sized-IsChecked :
      (kafka : KafkaConfig) (event : CommonEvent) (encoded : List ℕ ⊎ String)
      → event_has_raw_media_bytes event ≡ false
      → IsChecked kafka event (sized kafka event.event_id encoded)
  sized-IsChecked kafka event (inr error) h = h
  sized-IsChecked kafka event (inl bytes) h =
      elim (Bool-cases (ltb kafka.message_max_bytes (length bytes))) [
        | inl large ↦ rw large (h, ltb→lt kafka.message_max_bytes (length bytes) large, refl, refl)
        | inr fits ↦
            let small : length bytes ≤ kafka.message_max_bytes = ground (arith, fits) in
            rw fits (h, small)
      ]

  encoded-IsChecked :
      (kafka : KafkaConfig) (event : CommonEvent) (found : Option String) (vec : List ℕ ⊎ String)
      → raw_media_field decimal event.payload ≡ found
      → is_some found ≡ event_has_raw_media_bytes event
      → IsChecked kafka event (encoded kafka event.event_id found vec)
  encoded-IsChecked kafka event none vec e h = sized-IsChecked kafka event vec (sym h)
  encoded-IsChecked kafka event (some at) vec e h = (sym h, e, refl)

  -- An event that is encoded for Kafka has no field for bytes of media at any depth of its payload
  -- and fits the limit. One that has such a field is refused with its path, and one that is too
  -- large with the limit; only serde's own failure remains.
  pub encode_event_for_kafka-IsChecked :
      (to_vec : CommonEvent → List ℕ ⊎ String) (kafka : KafkaConfig) (event : CommonEvent)
      → IsChecked kafka event (encode_event_for_kafka decimal to_vec kafka event)
  unfolding encode_event_for_kafka
  encode_event_for_kafka-IsChecked to_vec kafka event =
      encoded-IsChecked kafka event (raw_media_field decimal event.payload) (to_vec event) refl
        (raw_media_field-found event.payload)
