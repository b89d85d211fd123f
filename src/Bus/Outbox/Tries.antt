-- ===== src/Bus/Outbox/Tries.antt =====
-- src/eventbus.rs and src/db.rs: how often a row of the outbox that can be read as an event is
-- tried.
use rust_zap.Prelude.{
  ℕ, zero, suc, ◌-◌, ◌≤◌, ◌<◌, max, String, ◌≡◌, refl, ◌∙◌, ap, sym, subst, Bool, true, false, not,
  ◌&&◌, ◌||◌, Option, List, some, ◌⊎◌, inl, inr, leb, ltb, Bool-cases, arith,
}
use rust_zap.Dict.{string_eq, lookup, insert}
use rust_zap.Dict.Laws.{lookup-insert_self}
use rust_zap.Models.{Time, CommonEvent}
use rust_zap.Config.{KafkaConfig}
use rust_zap.Bus.{EventBusError, PublishAck, DeadLetterEnvelope}
use rust_zap.Bus.Payloads.{encode_event_for_kafka}
use rust_zap.Bus.Metrics.{EventBusRuntimeMetrics, attempt}
use rust_zap.Bus.Outbox.{
  OutboxRow, OutboxStatus, Database, is_waiting, is_publishing, is_claimable, claim_row, record_of,
  write_row, update_row, published_row, failed_row, deadlettered_row, insert_kafka_deadletter,
}
use rust_zap.Bus.Outbox.Publisher.{
  Codecs, PublishDraws, if_works, next_attempt, backoff, deadletter_invalid, settle_published,
  publish_encoded, publish_decoded, publish_outbox_record,
}

-- The database after a worker has claimed a row.
abbrev pub claimed : String → String → ℕ → Time → OutboxRow → Database → Database
claimed id worker_id lock_seconds now row db = record db {
  outbox = insert id (claim_row worker_id lock_seconds now row) db.outbox;
}

-- `Tries n s t`: from `s`, one after another, the row under `id` is claimed and published `n` times,
-- whenever it can be claimed and whatever the broker answers, and that leads to `t`.
module _ (codecs : Codecs) (kafka : KafkaConfig) (id : String) where
  pub data Tries : ℕ → Database → Database → Type 0 where
    no_more : (s : Database) → Tries zero s s
    one_more :
        {n : ℕ} (s t : Database) (row : OutboxRow) (worker_id : String) (lock_seconds : ℕ)
        (now : Time) (answer deadletter_answer : PublishAck ⊎ EventBusError) (draws : PublishDraws)
        (metrics : EventBusRuntimeMetrics)
        → lookup id s.outbox ≡ some row
        → is_claimable now row ≡ true
        → draws.mark_works ≡ true
        → Tries n
            (publish_outbox_record codecs kafka draws
              (record_of (claim_row worker_id lock_seconds now row))
              answer
              deadletter_answer
              (metrics, claimed id worker_id lock_seconds now row s)).1
            t
        → Tries (suc n) s t

abbrev is_terminal : OutboxStatus → Bool
is_terminal s = not (is_waiting s || is_publishing s)

module _ (codecs : Codecs) (kafka : KafkaConfig) (id : String) (event : CommonEvent) where
  -- The row under `id` and what the tries need of it.
  record Stands (row : OutboxRow) (s : Database) : Type 0 where
    at : lookup id s.outbox ≡ some row
    own : row.event_id ≡ id
    reads : codecs.from_value row.payload_json ≡ inl event
    room : row.attempt_count < 2147483647

  -- What a try of a row with `n` attempts leaves.
  data Left (n : ℕ) (s : Database) : Type 0 where
    ended :
        (row : OutboxRow) → lookup id s.outbox ≡ some row → is_terminal row.status ≡ true → Left n s
    again :
        (row : OutboxRow)
        → Stands row s
        → row.attempt_count ≡ suc n
        → suc n < kafka.retry_max_attempts
        → Left n s

  updated_at_id :
      (change : OutboxRow → OutboxRow) (row : OutboxRow) (s : Database)
      → lookup id s.outbox ≡ some row
      → ltb row.attempt_count 2147483647 ≡ true
      → lookup id (update_row id change s).outbox ≡ some (change row)
  unfolding update_row
  updated_at_id change row s at fits =
      subst (λ o. lookup id (write_row id change s o).outbox ≡ some (change row)) (sym at)
        (rw fits (lookup-insert_self id (change row) s.outbox))

  updated :
      (change : OutboxRow → OutboxRow) (row : OutboxRow) (s : Database)
      → Stands row s
      → lookup id (update_row row.event_id change s).outbox ≡ some (change row)
  updated change row s h =
      subst (λ k. lookup id (update_row k change s).outbox ≡ some (change row)) (sym h.own)
        (updated_at_id change row s h.at (ground (arith, h.room)))

  -- A dead letter that is stored leaves the rows.
  outbox_beside :
      (works : Bool) (letter : String) (envelope : DeadLetterEnvelope) (topic : Option String)
      (key : String) (s : Database)
      → (if_works works
          (insert_kafka_deadletter codecs.to_value letter envelope topic key)
          s).outbox
        ≡ s.outbox
  unfolding insert_kafka_deadletter
  outbox_beside true letter envelope topic key s = refl
  outbox_beside false letter envelope topic key s = refl

  beside :
      (works : Bool) (letter : String) (envelope : DeadLetterEnvelope) (topic : Option String)
      (key : String) (row : OutboxRow) (s : Database)
      → Stands row s
      → Stands row
          (if_works works (insert_kafka_deadletter codecs.to_value letter envelope topic key) s)
  beside works letter envelope topic key row s h = record {
    at = ap (λ o. lookup id o) (outbox_beside works letter envelope topic key s) ∙ h.at;
    own = h.own;
    reads = h.reads;
    room = h.room;
  }

  claimed-Stands :
      (worker_id : String) (lock_seconds : ℕ) (now : Time) (row : OutboxRow) (s : Database)
      → Stands row s
      → Stands
          (claim_row worker_id lock_seconds now row)
          (claimed id worker_id lock_seconds now row s)
  unfolding claim_row
  claimed-Stands worker_id lock_seconds now row s h = record {
    at = lookup-insert_self id (claim_row worker_id lock_seconds now row) s.outbox;
    own = h.own;
    reads = h.reads;
    room = h.room;
  }

  ended_stops :
      (n : ℕ) (row : OutboxRow) (s t : Database)
      → lookup id s.outbox ≡ some row
      → is_terminal row.status ≡ true
      → Tries codecs kafka id n s t
      → n ≡ 0
  unfolding is_claimable
  ended_stops zero row s t at done tries = refl
  ended_stops (suc n) row s t at done
        (one_more _ _ row' worker_id lock_seconds now answer deadletter_answer draws metrics at' due
          works rest) =
      let same : row ≡ row' = cc (at, at') in
      let still : is_terminal row'.status ≡ true =
        subst (λ (r : OutboxRow). is_terminal r.status ≡ true) same done in
      absurd (cc (not_due (is_waiting row'.status) (is_publishing row'.status) _ _ _ still due))
    where
      not_due :
          (w p a b c : Bool) → not (w || p) ≡ true → ((w && a || p && b) && c) ≡ true → true ≡ false
      not_due w p a b c h k = ground arith

  module _ (draws : PublishDraws) (works : draws.mark_works ≡ true)
      (capped : kafka.retry_max_attempts ≤ 2147483647) where
    settled :
        (row : OutboxRow) (answer deadletter_answer : PublishAck ⊎ EventBusError)
        (metrics : EventBusRuntimeMetrics) (s : Database)
        → Stands row s
        → Left row.attempt_count
            (settle_published codecs kafka draws
              (record_of row)
              event
              answer
              deadletter_answer
              (metrics, s)).1
    unfolding settle_published record_of published_row failed_row deadlettered_row
    settled row (inl ack) deadletter_answer metrics s h =
        rw works (ended _ (updated (published_row ack.partition ack.offset draws.now) row s h) refl)
    settled row (inr failure) deadletter_answer metrics s h =
        elim (Bool-cases (leb kafka.retry_max_attempts (next_attempt (record_of row)))) [
          | inl last ↦
              rw (last, works)
                (ended _
                  (updated (deadlettered_row (codecs.error_text failure) draws.now) row _ (
                    beside draws.insert_works draws.deadletter_id _ (some row.topic)
                      row.partition_key row s h))
                  refl)
          | inr early ↦
              let more : suc row.attempt_count < kafka.retry_max_attempts =
                ground (arith, early, h.room, capped) in
              let change =
                failed_row (codecs.error_text failure) (backoff (next_attempt (record_of row)))
                  draws.now in
              rw (early, works)
                (again (change row)
                  (record {
                    at = updated change row s h;
                    own = h.own;
                    reads = h.reads;
                    room = omega (arith, more, capped);
                  })
                  (omega arith) more)
        ]

    tried :
        (row : OutboxRow) (answer deadletter_answer : PublishAck ⊎ EventBusError)
        (metrics : EventBusRuntimeMetrics) (s : Database)
        → Stands row s
        → Left row.attempt_count
            (publish_outbox_record codecs kafka draws
              (record_of row)
              answer
              deadletter_answer
              (metrics, s)).1
    unfolding publish_outbox_record record_of deadletter_invalid deadlettered_row
    tried row answer deadletter_answer metrics s h =
        let counted = attempt (record_of row).topic metrics in
        let publish =
          publish_decoded codecs kafka draws (record_of row) answer deadletter_answer
            (counted, s) in
        subst (λ o. Left row.attempt_count (publish o).1) (sym h.reads)
          (encoded (encode_event_for_kafka codecs.decimal codecs.to_vec kafka event))
      where
        encoded :
            (e : List ℕ ⊎ EventBusError)
            → Left row.attempt_count
                (publish_encoded codecs kafka draws
                  (record_of row)
                  event
                  answer
                  deadletter_answer
                  (attempt (record_of row).topic metrics, s)
                  e).1
        encoded (inl payload) =
            settled row answer deadletter_answer (attempt (record_of row).topic metrics) s h
        encoded (inr failure) = rw works (
            ended _
              (ap (λ o. lookup id o)
                  (outbox_beside draws.insert_works draws.deadletter_id _ (some row.topic)
                    row.partition_key _)
                ∙ updated (deadlettered_row (codecs.error_text failure) draws.now) row s h)
              refl)

  -- The step of the count: what is left of `n` attempts, and then at most so many tries.
  one_try :
      (n a : ℕ) (u t : Database)
      → ((r : OutboxRow) → Stands r u → n ≤ max 1 (kafka.retry_max_attempts - r.attempt_count))
      → Left a u
      → Tries codecs kafka id n u t
      → suc n ≤ max 1 (kafka.retry_max_attempts - a)
  one_try n a u t later (ended r at done) tries =
      let none_left = ended_stops n r u t at done tries in omega (arith, none_left)
  one_try n a u t later (again r stands count more) tries =
      let rest = later r stands in omega (arith, rest, count, more)

  bounded :
      (capped : kafka.retry_max_attempts ≤ 2147483647) (n : ℕ) (row : OutboxRow) (s t : Database)
      → Stands row s
      → Tries codecs kafka id n s t
      → n ≤ max 1 (kafka.retry_max_attempts - row.attempt_count)
  unfolding claim_row
  bounded capped zero row s t h tries = omega arith
  bounded capped (suc n) row s t h
        (one_more _ _ row' worker_id lock_seconds now answer deadletter_answer draws metrics at due
          works rest) =
      let same : row ≡ row' = cc (h.at, at) in
      let stands =
        claimed-Stands worker_id lock_seconds now row' s (subst (λ r. Stands r s) same h) in
      let left =
        tried draws works capped (claim_row worker_id lock_seconds now row') answer
          deadletter_answer metrics (claimed id worker_id lock_seconds now row' s) stands in
      subst (λ (r : OutboxRow). suc n ≤ max 1 (kafka.retry_max_attempts - r.attempt_count))
        (sym same)
        (one_try n row'.attempt_count _ t (λ r k. bounded capped n r _ t k rest) left rest)

-- A row of the outbox that the service can read as an event is not tried for ever: whatever the
-- broker answers, tries that follow one another, each written to the database, number at most what
-- is left of the configured attempts, and one where none is left. The limit and the attempts so far
-- are below what an `i32` holds.
pub Tries-bounded :
    (codecs : Codecs) (kafka : KafkaConfig) (row : OutboxRow) (event : CommonEvent) (n : ℕ)
    (s t : Database)
    → lookup row.event_id s.outbox ≡ some row
    → codecs.from_value row.payload_json ≡ inl event
    → row.attempt_count < 2147483647
    → kafka.retry_max_attempts ≤ 2147483647
    → Tries codecs kafka row.event_id n s t
    → n ≤ max 1 (kafka.retry_max_attempts - row.attempt_count)
Tries-bounded codecs kafka row event n s t at reads room capped tries =
    bounded codecs kafka row.event_id event capped n row s t
      (record { at = at; own = refl; reads = reads; room = room }) tries
