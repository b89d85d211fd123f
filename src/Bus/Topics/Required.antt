-- ===== src/Bus/Topics/Required.antt =====
-- src/eventbus.rs: the topics that events go to and those that the bus asks for.
use rust_zap.Prelude.{
  String, ◌≡◌, refl, ◌∙◌, Bool, true, false, ◌&&◌, ◌||◌, not, List, [], ◌∷◌, map, retain, all, ◌⊎◌,
  inl, inr, Bool-cases, arith,
}
use rust_zap.Dict.{◌==◌, string_eq}
use rust_zap.Dict.Laws.{beq_refl}
use rust_zap.Dict.Distinct.{is_in}
use rust_zap.Text.Order.{is_in-sorted}
use rust_zap.Config.{KafkaConfig}
use rust_zap.Bus.{TopicSpec, missing_topics}
use rust_zap.Bus.Topics.{
  event_topic_suffixes, arms, first_arm, under_prefix, topic_for_event, required_suffixes,
  topic_spec, required_topic_specs, ensure_specs, retry_topic, deadletter_topic, missing_specs,
  Created, names, join, ensure_topics,
}

abbrev is_listed : String → Bool
is_listed suffix = is_in suffix event_topic_suffixes

both : (a b : Bool) → (a && b) ≡ true → (a ≡ true) × (b ≡ true)
both a b h = ground arith

first_arm-listed :
    (r : List (Bool × String))
    → all (λ (arm : Bool × String). is_listed arm.1) r ≡ true
    → is_listed (first_arm r) ≡ true
unfolding first_arm
first_arm-listed [] h = refl
first_arm-listed ((true, suffix) ∷ r) h = (both _ _ h).0
first_arm-listed ((false, suffix) ∷ r) h = first_arm-listed r (both _ _ h).1

arms-listed :
    (event_type : String) → all (λ (arm : Bool × String). is_listed arm.1) (arms event_type) ≡ true
arms-listed event_type = refl

module _ (kafka : KafkaConfig) where
  named :
      (suffix : String) (suffixes : List String)
      → is_in suffix suffixes ≡ true
      → is_in (under_prefix kafka suffix) (names (map (topic_spec kafka) suffixes)) ≡ true
  named suffix [] h = h
  named suffix (s ∷ r) h = elim (Bool-cases (s == suffix)) [
    | inl same ↦
        let e : s ≡ suffix = (string_eq.beq_iff s suffix).0 same in
        rw e (rw (beq_refl (under_prefix kafka suffix)) refl)
    | inr other ↦ let later = named suffix r (ground (arith, h, other)) in ground (arith, later)
  ]

  required :
      (suffix : String)
      → is_in suffix
          (kafka.retry_topic_suffix ∷ kafka.deadletter_topic_suffix ∷ event_topic_suffixes)
        ≡ true
      → is_in (under_prefix kafka suffix) (names (required_topic_specs kafka)) ≡ true
  unfolding required_topic_specs required_suffixes
  required suffix h = named suffix (required_suffixes kafka) (
      is_in-sorted suffix
        (kafka.retry_topic_suffix ∷ kafka.deadletter_topic_suffix ∷ event_topic_suffixes)
      ∙ h)

  -- A topic is there, or the broker was asked to make it.
  abbrev pub IsReady : (existing : List String) → (topic : String) → Type 0
  IsReady existing topic =
      (is_in topic existing
        || (kafka.enable_auto_create_topics && is_in topic (names (missing_specs kafka existing))))
      ≡ true

  there_or_missing :
      (existing : List String) (topic : String) (specs : List TopicSpec)
      → is_in topic (names specs) ≡ true
      → (is_in topic existing
          || is_in topic
              (names (retain (λ (spec : TopicSpec). not (is_in spec.name existing)) specs)))
        ≡ true
  there_or_missing existing topic [] h = absurd (ground (arith, h))
  there_or_missing existing topic (spec ∷ specs) h = elim (Bool-cases (spec.name == topic)) [
    | inl same ↦
        let e : spec.name ≡ topic = (string_eq.beq_iff spec.name topic).0 same in
        elim (Bool-cases (is_in topic existing)) [
          | inl there ↦ rw there refl
          | inr absent ↦ rw (absent, e, absent, beq_refl topic) refl
        ]
    | inr other ↦
        let later = there_or_missing existing topic specs (ground (arith, h, other)) in
        elim (Bool-cases (is_in spec.name existing)) [
          | inl there ↦ rw there later
          | inr absent ↦ rw (absent, other) later
        ]
  ]

  asked_for :
      (existing : List String) (topic : String)
      (create_topics : List TopicSpec → List Created ⊎ String) (specs : List TopicSpec)
      → ensure_specs kafka create_topics specs ≡ inl tt
      → (is_in topic existing || is_in topic (names specs)) ≡ true
      → (is_in topic existing || (kafka.enable_auto_create_topics && is_in topic (names specs)))
        ≡ true
  unfolding ensure_specs
  asked_for existing topic create_topics [] h k = ground arith
  asked_for existing topic create_topics (spec ∷ specs) h k =
      elim (Bool-cases kafka.enable_auto_create_topics) [
        | inl auto ↦ rw auto k
        | inr manual ↦
            let same : ensure_specs kafka create_topics (spec ∷ specs)
                ≡ inr (missing_topics (join ", " (names (spec ∷ specs)))) =
              rw manual refl in
            absurd (cc (same, h))
      ]

  ready :
      (existing : List String) (create_topics : List TopicSpec → List Created ⊎ String)
      (suffix : String)
      → ensure_topics kafka (inl existing) create_topics ≡ inl tt
      → is_in suffix
          (kafka.retry_topic_suffix ∷ kafka.deadletter_topic_suffix ∷ event_topic_suffixes)
        ≡ true
      → IsReady existing (under_prefix kafka suffix)
  unfolding ensure_topics missing_specs
  ready existing create_topics suffix h listed =
      asked_for existing (under_prefix kafka suffix) create_topics (missing_specs kafka existing) h
        (there_or_missing existing (under_prefix kafka suffix) (required_topic_specs kafka)
          (required suffix listed))

  pub ensure_topics-IsReady :
      (existing : List String) (create_topics : List TopicSpec → List Created ⊎ String)
      (event_type : String)
      → ensure_topics kafka (inl existing) create_topics ≡ inl tt
      → IsReady existing (topic_for_event kafka event_type)
        × IsReady existing (retry_topic kafka)
        × IsReady existing (deadletter_topic kafka)
  unfolding topic_for_event
  ensure_topics-IsReady existing create_topics event_type h = (
    ready existing create_topics (first_arm (arms event_type)) h (
        let listed = first_arm-listed (arms event_type) (arms-listed event_type) in
        ground (arith, listed)),
    ready existing create_topics kafka.retry_topic_suffix h
        (let same = beq_refl kafka.retry_topic_suffix in ground (arith, same)),
    ready existing create_topics kafka.deadletter_topic_suffix h
        (let same = beq_refl kafka.deadletter_topic_suffix in ground (arith, same)),
  )
