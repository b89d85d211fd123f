-- ===== src/Send/Idempotency.antt =====
-- src/state.rs: sends under an idempotency key that is used again, and sends that fail.
use rust_zap.Prelude.{
  String, ◌≡◌, refl, ◌≢◌, ◌∙◌, sym, ap, false, Option, none, some, inl, inr, Bool-cases,
  Option-cases, unwrap_or,
}
use rust_zap.Dict.{lookup, insert, ◌==◌, string_eq, triple_eq}
use rust_zap.Dict.Laws.{lookup-insert_self, beq_ne, beq_refl}
use rust_zap.Error.{Result-cases, Result, ApiError, ok, err, idempotency_conflict}
use rust_zap.Models.{Time, Message, MediaObject, SendMessageRequest}
use rust_zap.Store.{StoreInner, IdempotencyRecord, Key₃, push_event_inner}
use rust_zap.Dirty.{mark_dirty_inner}
use rust_zap.Conversations.{resolve_conversation_id_inner}
use rust_zap.Messages.{
  MessageInput, MessageDraws, open_conversation, build_message, store_message, announce_message,
  record_message_inner, with_media, rewrite_message, attach_media_to_message_inner,
}
use rust_zap.Send.{
  SendMessageOutcome, SendDraws, replay, request_media, link_media, input_of, register_send,
  send_new, finish_send, prepare_send_message_with_actor,
}

-- What is stored under a message's own id is that message.
abbrev IsStored : Message → StoreInner → Type 0
IsStored message s = lookup message.id s.messages_by_id ≡ some message

record_message-IsStored :
    (m : MessageInput) (draws : MessageDraws) (s : StoreInner)
    → let (message, t) = record_message_inner m draws s in IsStored message t
unfolding record_message_inner store_message announce_message push_event_inner mark_dirty_inner
record_message-IsStored m draws s =
    let (contact, conversation, t) = open_conversation m draws.now s in
    let message = build_message m draws contact conversation.last_seq in
    lookup-insert_self message.id message t.messages_by_id

attach_media-IsStored :
    (media : MediaObject) (now : Time) (message : Message) (s : StoreInner)
    → IsStored message s
    → let (attached, t) = attach_media_to_message_inner message.id media now s in
      IsStored (unwrap_or attached message) t
unfolding attach_media_to_message_inner rewrite_message with_media
attach_media-IsStored media now message s h =
    rw (h, attach_media_to_message_inner)
      (lookup-insert_self message.id (with_media media now message) s.messages_by_id)

link_media-IsStored :
    (media : Option MediaObject) (draws : SendDraws) (message : Message) (s : StoreInner)
    → IsStored message s
    → let (linked, t) = link_media media draws message s in IsStored linked t
unfolding link_media
link_media-IsStored none draws message s h = h
link_media-IsStored (some media) draws message s h = elim (Option-cases (lookup media.id s.media)) [
  | inl e ↦ rw (e, link_media) (attach_media-IsStored media draws.attach_now message s h)
  | inr (stored, e) ↦
      let linked = record stored { message_id = some message.id; updated_at = draws.media_now } in
      rw (e, link_media)
        (attach_media-IsStored linked draws.attach_now message
          (record s { media = insert media.id linked s.media }) h)
]

send_new-tied :
    (key : Key₃) (hash conversation_id : String) (request : SendMessageRequest)
    (actor : Option String) (media : Option MediaObject) (draws : SendDraws) (s : StoreInner)
    → let (outcome, t) = send_new key hash conversation_id request actor media draws s in
      (lookup key t.idempotency
        ≡ some (record { request_hash = hash; message_id = outcome.message.id }))
      × IsStored outcome.message t
unfolding send_new register_send push_event_inner
send_new-tied key hash conversation_id request actor media draws s =
    let m = input_of key.0 key.1 conversation_id request actor media s in
    let (recorded, stored) = record_message_inner m draws.message s in
    let (message, linked) = link_media media draws recorded stored in
    (
      lookup-insert_self key (record { request_hash = hash; message_id = message.id })
          linked.idempotency,
      link_media-IsStored media draws recorded stored (record_message-IsStored m draws.message s),
    )

module _ (sha256_json : SendMessageRequest → Result String) (key : Key₃) where
  -- A key whose message is stored, tied to the hash of a request.
  abbrev IsTied : SendMessageRequest → Message → StoreInner → Type 0
  IsTied request message t =
      (hash id : String) × (sha256_json request ≡ ok hash)
      × (lookup key t.idempotency ≡ some (record { request_hash = hash; message_id = id }))
      × (lookup id t.messages_by_id ≡ some message)

  -- What a call leaves behind: nothing where it fails, else its message, tied to its key.
  abbrev Leaves : SendMessageRequest → StoreInner → Result SendMessageOutcome × StoreInner → Type 0
  Leaves request s (err e, t) = t ≡ s
  Leaves request s (ok outcome, t) = IsTied request outcome.message t

  finish_send-Leaves :
      (hash conversation_id : String) (request : SendMessageRequest) (actor : Option String)
      (draws : SendDraws) (s : StoreInner) (media : Result (Option MediaObject))
      → sha256_json request ≡ ok hash
      → Leaves request s (finish_send key hash conversation_id request actor draws s media)
  unfolding finish_send
  finish_send-Leaves hash conversation_id request actor draws s (err e) h = refl
  finish_send-Leaves hash conversation_id request actor draws s (ok media) h =
      let (outcome, t) = send_new key hash conversation_id request actor media draws s in
      let tied = send_new-tied key hash conversation_id request actor media draws s in
      (hash, outcome.message.id, h, tied.0, tied.1)

  replay-Leaves :
      (hash : String) (idempotent : IdempotencyRecord) (request : SendMessageRequest)
      (s : StoreInner)
      → sha256_json request ≡ ok hash
      → lookup key s.idempotency ≡ some idempotent
      → Leaves request s (replay hash idempotent s, s)
  unfolding replay
  replay-Leaves hash idempotent request s h held =
      elim (Bool-cases (idempotent.request_hash == hash)) [
        | inr other ↦ rw other refl
        | inl same ↦ elim (Option-cases (lookup idempotent.message_id s.messages_by_id)) [
          | inl e ↦ rw (same, e) refl
          | inr (message, e) ↦
              rw (same, e)
                (
                  idempotent.request_hash,
                  idempotent.message_id,
                  h ∙ ap (λ (x : String). ok x) (sym ((string_eq.beq_iff _ _).0 same)),
                  held,
                  e,
                )
        ]
      ]

  prepare-Leaves :
      (asked : String) (request : SendMessageRequest) (actor : Option String) (draws : SendDraws)
      (s : StoreInner)
      → Leaves request s (
          prepare_send_message_with_actor sha256_json key.0 key.1 asked key.2 request actor draws s)
  unfolding prepare_send_message_with_actor
  prepare-Leaves asked request actor draws s = elim (Result-cases (sha256_json request)) [
    | inl (e, h) ↦ rw (h, prepare_send_message_with_actor) refl
    | inr (hash, h) ↦
        let conversation_id = resolve_conversation_id_inner s key.0 key.1 asked in
        elim (Option-cases (lookup key s.idempotency)) [
          | inl e ↦
              rw (h, prepare_send_message_with_actor)
                (rw e (
                  finish_send-Leaves hash conversation_id request actor draws s
                    (request_media key.0 key.1 conversation_id request s) h))
          | inr (idempotent, e) ↦
              rw (h, prepare_send_message_with_actor)
                (rw e (replay-Leaves hash idempotent request s h e))
        ]
  ]

  Leaves-ok :
      (request : SendMessageRequest) (s : StoreInner) (out : Result SendMessageOutcome × StoreInner)
      {outcome : SendMessageOutcome}
      → out.0 ≡ ok outcome
      → Leaves request s out
      → IsTied request outcome.message out.1
  Leaves-ok request s (err e, t) h w = absurd (cc h)
  Leaves-ok request s (ok o, t) {outcome} h w = let same : o ≡ outcome = cc h in rw (← same) w

  tied_replay :
      (asked : String) (request : SendMessageRequest) (actor : Option String) (draws : SendDraws)
      (message : Message) (t : StoreInner)
      → IsTied request message t
      → prepare_send_message_with_actor sha256_json key.0 key.1 asked key.2 request actor draws t
        ≡ (ok (record { message = message; should_dispatch = false }), t)
  unfolding prepare_send_message_with_actor replay
  tied_replay asked request actor draws message t (hash, id, h, held, stored) =
      rw (h, prepare_send_message_with_actor)
        (rw (held, replay) (rw (beq_refl hash) (rw stored refl)))

  Leaves-err :
      (request : SendMessageRequest) (s : StoreInner) (out : Result SendMessageOutcome × StoreInner)
      {e : ApiError}
      → out.0 ≡ err e
      → Leaves request s out
      → out.1 ≡ s
  Leaves-err request s (err e, t) h w = w
  Leaves-err request s (ok o, t) h w = absurd (cc h)

  module _ (asked : String) (request : SendMessageRequest) (actor : Option String)
      (draws : SendDraws) (s : StoreInner) where
    abbrev first_call : Result SendMessageOutcome × StoreInner
    first_call =
        prepare_send_message_with_actor sha256_json key.0 key.1 asked key.2 request actor draws s

    -- A send that fails, whatever the reason, leaves the store as it was.
    pub prepare_send-error :
        {e : ApiError}
        → (prepare_send_message_with_actor sha256_json key.0 key.1 asked key.2 request actor draws
            s).0
          ≡ err e
        → (prepare_send_message_with_actor sha256_json key.0 key.1 asked key.2 request actor draws
            s).1
          ≡ s
    prepare_send-error h =
        Leaves-err request s first_call h (prepare-Leaves asked request actor draws s)

    -- After a send that succeeds, a second call under the key whose request has the same hash, for
    -- whatever conversation and actor, gives the message of the first call, asks for no dispatch
    -- and changes nothing.
    pub prepare_send-replay :
        (asked_again : String) (again : SendMessageRequest) (actor_again : Option String)
        (draws_again : SendDraws) {outcome : SendMessageOutcome}
        → (prepare_send_message_with_actor sha256_json key.0 key.1 asked key.2 request actor draws
            s).0
          ≡ ok outcome
        → sha256_json again ≡ sha256_json request
        → let t =
            (prepare_send_message_with_actor sha256_json key.0 key.1 asked key.2 request actor draws
              s).1 in
          prepare_send_message_with_actor sha256_json key.0 key.1 asked_again key.2 again
            actor_again draws_again t
          ≡ (ok (record { message = outcome.message; should_dispatch = false }), t)
    prepare_send-replay asked_again again actor_again draws_again {outcome} h same =
        let (hash, id, hashed, held, stored) =
          Leaves-ok request s first_call h (prepare-Leaves asked request actor draws s) in
        tied_replay asked_again again actor_again draws_again outcome.message first_call.1
          (hash, id, same ∙ hashed, held, stored)

    -- After a send that succeeds, a call under the key whose request has another hash is refused
    -- as a conflict and changes nothing.
    pub prepare_send-conflict :
        (asked_again : String) (again : SendMessageRequest) (actor_again : Option String)
        (draws_again : SendDraws) {outcome : SendMessageOutcome} {other : String}
        → (prepare_send_message_with_actor sha256_json key.0 key.1 asked key.2 request actor draws
            s).0
          ≡ ok outcome
        → sha256_json again ≡ ok other
        → sha256_json request ≢ ok other
        → let t =
            (prepare_send_message_with_actor sha256_json key.0 key.1 asked key.2 request actor draws
              s).1 in
          prepare_send_message_with_actor sha256_json key.0 key.1 asked_again key.2 again
            actor_again draws_again t
          ≡ (err (idempotency_conflict "same Idempotency-Key used with different request body"), t)
    unfolding prepare_send_message_with_actor replay
    prepare_send-conflict asked_again again actor_again draws_again {outcome} {other} h hashed
          differs =
        let (hash, id, first_hash, held, stored) =
          Leaves-ok request s first_call h (prepare-Leaves asked request actor draws s) in
        let apart : hash ≢ other = λ e. differs (first_hash ∙ ap (λ (x : String). ok x) e) in
        rw (hashed, prepare_send_message_with_actor)
          (rw (held, replay) (rw (beq_ne hash other apart) refl))
