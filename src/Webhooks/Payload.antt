-- ===== src/Webhooks/Payload.antt =====
-- src/state.rs: `compact_payload`, what a webhook's body shows of an event's payload, and
-- `compact_webhook_event`. The RFC 3339 text of a time (`ts`) is a parameter.
use rust_zap.Prelude.{
  String, ◌≡◌, refl, ◌∙◌, ap, Bool, false, ◌||◌, Option, none, some, [], ◌∷◌, arith, inl, inr,
  Bool-cases, map_option, if◌then◌else◌,
}
use rust_zap.Prelude.Int.{ℤ}
use rust_zap.Dict.{◌==◌, string_eq}
use rust_zap.Dict.Laws.{beq_refl}
use rust_zap.Json.{
  Value, Items, Fields, null, boolean, pos_int, neg_int, float, str, arr, obj, nil, cons, end,
  field, get, get_field, object, of_option,
}
use rust_zap.Events.{of_i64}
use rust_zap.Models.{Time, CommonEvent}

-- The keys that are left out, at every depth.
unfoldable pub is_bulky : String → Bool
is_bulky key =
    key == "text"
    || key == "caption"
    || key == "bytes"
    || key == "raw_response_json"
    || key == "transcript"
    || key == "media"

unfoldable mutual
  pub compact_payload : Value → Value
  compact_payload (obj object) = obj (compact_fields object)
  compact_payload (arr items) = arr (compact_items items)
  compact_payload null = null
  compact_payload (boolean b) = boolean b
  compact_payload (pos_int n) = pos_int n
  compact_payload (neg_int n) = neg_int n
  compact_payload (float t) = float t
  compact_payload (str t) = str t

  pub compact_fields : Fields → Fields
  compact_fields end = end
  compact_fields (field key value rest) =
      let kept = compact_fields rest in
      if is_bulky key then kept else field key (compact_payload value) kept

  pub compact_items : Items → Items
  compact_items nil = nil
  compact_items (cons value rest) = cons (compact_payload value) (compact_items rest)

abbrev seq_value : Option ℤ → Value
seq_value none = null
seq_value (some n) = of_i64 n

-- What is sent of an event. `ts` writes a time.
unfoldable pub compact_webhook_event : (Time → String) → CommonEvent → Value
compact_webhook_event ts event = object (
    ("event_id", str event.event_id)
    ∷ ("event_type", str event.event_type)
    ∷ ("project_id", str event.project_id)
    ∷ ("company_id", str event.company_id)
    ∷ ("channel_id", of_option event.channel_id)
    ∷ ("conversation_id", of_option event.conversation_id)
    ∷ ("message_id", of_option event.message_id)
    ∷ ("conversation_seq", seq_value event.conversation_seq)
    ∷ ("occurred_at", str (ts event.occurred_at))
    ∷ ("payload", compact_payload event.payload)
    ∷ [])

-- No bulky key stands at any depth.
unfoldable mutual
  pub IsCompact : Value → Type 0
  IsCompact (obj fields) = AreCompact fields
  IsCompact (arr items) = AllCompact items
  IsCompact null = Unit
  IsCompact (boolean b) = Unit
  IsCompact (pos_int n) = Unit
  IsCompact (neg_int n) = Unit
  IsCompact (float t) = Unit
  IsCompact (str t) = Unit

  pub AreCompact : Fields → Type 0
  AreCompact end = Unit
  AreCompact (field key value rest) = (is_bulky key ≡ false) × IsCompact value × AreCompact rest

  pub AllCompact : Items → Type 0
  AllCompact nil = Unit
  AllCompact (cons value rest) = IsCompact value × AllCompact rest

mutual
  unfolding IsCompact compact_payload

  every_value : (v : Value) → IsCompact (compact_payload v)
  every_value (obj fields) = all_fields fields
  every_value (arr items) = all_items items
  every_value null = tt
  every_value (boolean b) = tt
  every_value (pos_int n) = tt
  every_value (neg_int n) = tt
  every_value (float t) = tt
  every_value (str t) = tt

  all_fields : (fields : Fields) → AreCompact (compact_fields fields)
  all_fields end = tt
  all_fields (field key value rest) = elim (Bool-cases (is_bulky key)) [
    | inl bulky ↦ rw (bulky, compact_payload) (all_fields rest)
    | inr kept ↦ rw (kept, compact_payload) (kept, every_value value, all_fields rest)
  ]

  all_items : (items : Items) → AllCompact (compact_items items)
  all_items nil = tt
  all_items (cons value rest) = (every_value value, all_items rest)

mutual
  unfolding IsCompact compact_payload

  keep_value : (v : Value) → IsCompact v → compact_payload v ≡ v
  keep_value (obj fields) h = ap obj (keep_fields fields h)
  keep_value (arr items) h = ap arr (keep_items items h)
  keep_value null h = refl
  keep_value (boolean b) h = refl
  keep_value (pos_int n) h = refl
  keep_value (neg_int n) h = refl
  keep_value (float t) h = refl
  keep_value (str t) h = refl

  keep_fields : (fields : Fields) → AreCompact fields → compact_fields fields ≡ fields
  keep_fields end h = refl
  keep_fields (field key value rest) h =
      rw (h.0, compact_payload) (cc (keep_value value h.1, keep_fields rest h.2))

  keep_items : (items : Items) → AllCompact items → compact_items items ≡ items
  keep_items nil h = refl
  keep_items (cons value rest) h = cc (keep_value value h.0, keep_items rest h.1)

compact_fields-get :
    (key : String) (fields : Fields)
    → get_field key (compact_fields fields)
      ≡ (if is_bulky key then none else map_option compact_payload (get_field key fields))
unfolding compact_payload get_field
compact_fields-get key end = ground arith
compact_fields-get key (field held value rest) =
    let later = compact_fields-get key rest in
    elim (Bool-cases (held == key)) [
      | inl same ↦
          let e : held ≡ key = (string_eq.beq_iff held key).0 same in
          elim (Bool-cases (is_bulky key)) [
            | inl bulky ↦ rw (e, bulky) (later ∙ (rw bulky refl))
            | inr kept ↦ rw (e, kept, beq_refl key) refl
          ]
      | inr other ↦ elim (Bool-cases (is_bulky held)) [
        | inl bulky ↦ rw (bulky, compact_payload) (rw other later)
        | inr kept ↦ rw (kept, compact_payload) (rw other later)
      ]
    ]

-- What a webhook shows of a payload has no bulky key at any depth, is not made smaller by another
-- pass, and has under every other key the compact form of what the payload has there.
pub compact_payload-IsCompact :
    (payload : Value) (key : String)
    → IsCompact (compact_payload payload)
      × (compact_payload (compact_payload payload) ≡ compact_payload payload)
      × (get key (compact_payload payload)
          ≡ (if is_bulky key then none else map_option compact_payload (get key payload)))
unfolding compact_payload get
compact_payload-IsCompact payload key =
    (every_value payload, keep_value (compact_payload payload) (every_value payload), at payload)
  where
    at :
        (v : Value)
        → get key (compact_payload v)
          ≡ (if is_bulky key then none else map_option compact_payload (get key v))
    at (obj fields) = compact_fields-get key fields
    at (arr items) = ground arith
    at null = ground arith
    at (boolean b) = ground arith
    at (pos_int n) = ground arith
    at (neg_int n) = ground arith
    at (float t) = ground arith
    at (str t) = ground arith
