-- ===== src/Conversations/Reading.antt =====
-- src/state.rs: `mark_read`, which takes a conversation's unread messages for read.
use rust_zap.Prelude.{String, ◌≡◌, refl, some, [], ◌∷◌, if◌then◌else◌, map_option, inl, inr, none}
use rust_zap.Prelude.Int.{pos}
use rust_zap.Dict.{◌==◌, string_eq, lookup, insert}
use rust_zap.Dict.Laws.{lookup-insert}
use rust_zap.Json.{object, pos_int}
use rust_zap.Error.{Result, ok, err, Result-cases}
use rust_zap.Models.{Time, Conversation}
use rust_zap.Events.{Stamp, new_event}
use rust_zap.Store.{StoreInner, push_event_inner}
use rust_zap.Conversations.{resolve_conversation_id_inner, conversation_for_inner}
use rust_zap.Conversations.Resolve.{conversation_for_inner_owned}

abbrev pub read_conversation : Time → Conversation → Conversation
read_conversation now conversation = record conversation { unread_count = pos 0; updated_at = now }

unfoldable pub mark_read :
    (project_id company_id conversation_id : String)
    → Time
    → Stamp
    → StoreInner
    → Result Conversation × StoreInner
mark_read project_id company_id conversation_id now stamp inner =
    let id = resolve_conversation_id_inner inner project_id company_id conversation_id in
    elim (conversation_for_inner inner project_id company_id conversation_id) [
      | err failure ↦ (err failure, inner)
      | ok conversation ↦
          let updated = read_conversation now conversation in
          (
            ok updated,
            push_event_inner
                (new_event "conversation.read" project_id company_id
                  (some updated.channel_account_id) (some updated.id) none (some updated.last_seq)
                  (object (("unread_count", pos_int 0) ∷ [])) stamp)
                (record inner { conversations = insert id updated inner.conversations }),
          )
    ]

module _ (p c asked : String) where
  -- What a read leaves, by its reply.
  abbrev pub IsRead : StoreInner → Result Conversation × StoreInner → Type 0
  IsRead s (err e, t) = (t ≡ s) × (conversation_for_inner s p c asked ≡ err e)
  IsRead s (ok shown, t) =
      (shown.unread_count ≡ pos 0)
      × (shown.project_id ≡ p)
      × (shown.company_id ≡ c)
      × (map_option (λ w. w.last_seq)
            (lookup (resolve_conversation_id_inner s p c asked) s.conversations)
          ≡ some shown.last_seq)
      × ((v : String)
          → lookup v t.conversations ≡ (
              if resolve_conversation_id_inner s p c asked == v
              then some shown
              else lookup v s.conversations))
      × (t.messages_by_conversation ≡ s.messages_by_conversation)
      × (t.dirty ≡ s.dirty)

  pub mark_read-IsRead :
      (now : Time) (stamp : Stamp) (s : StoreInner) → IsRead s (mark_read p c asked now stamp s)
  unfolding mark_read push_event_inner
  mark_read-IsRead now stamp s = elim (Result-cases (conversation_for_inner s p c asked)) [
    | inl (e, failed) ↦ rw (failed, mark_read) (refl, failed)
    | inr (v, found) ↦
        let (project, company, stored) = conversation_for_inner_owned s p c asked found in
        rw (found, mark_read)
          (
            refl,
            project,
            company,
            rw stored refl,
            (λ w.
                lookup-insert (resolve_conversation_id_inner s p c asked) w
                  (read_conversation now v) s.conversations),
            refl,
            refl,
          )
  ]
