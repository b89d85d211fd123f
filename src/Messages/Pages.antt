-- ===== src/Messages/Pages.antt =====
-- src/state.rs: `list_messages`, the cursor reads of a conversation.
pub mod Walk
use rust_zap.Prelude.{
  ℕ, ◌+◌, String, Bool, true, false, ◌&&◌, Option, none, some, List, [], ◌∷◌, if◌then◌else◌, not,
  is_none_or, unwrap_or, retain, length, take, first, last, map, map_option, ltb,
}
use rust_zap.Prelude.Int.{ℤ, leb_ℤ, ltb_ℤ}
use rust_zap.Dict.{◌==◌, string_eq, lookup}
use rust_zap.Error.{Result, ok, ◌>>=◌}
use rust_zap.Models.{Message, Conversation}
use rust_zap.Store.{StoreInner}
use rust_zap.Config.{AppConfig, is_local_fs, dev_media_url}
use rust_zap.Conversations.{conversation, public_conversation_id}

pub record MessagesPage : Type 0 where
  pub conversation_id : String
  pub from_seq : Option ℤ
  pub to_seq : Option ℤ
  pub has_more : Bool
  pub messages : List Message

abbrev pub is_between : Option ℤ → Option ℤ → Message → Bool
is_between after_seq before_seq message =
    is_none_or after_seq (λ seq. ltb_ℤ seq message.conversation_seq)
    && is_none_or before_seq (λ seq. ltb_ℤ message.conversation_seq seq)

insert_by_seq : Message → List Message → List Message
insert_by_seq m [] = m ∷ []
insert_by_seq m (k ∷ r) =
    if leb_ℤ m.conversation_seq k.conversation_seq then m ∷ k ∷ r else k ∷ insert_by_seq m r

-- `sort_by_key` is stable, so any stable sort gives its result.
unfoldable pub sort_by_seq : List Message → List Message
unfolding insert_by_seq
sort_by_seq [] = []
sort_by_seq (m ∷ r) = insert_by_seq m (sort_by_seq r)

unfoldable pub normalize_message_media_urls : AppConfig → Message → Message
normalize_message_media_urls config message =
    if is_local_fs config.storage_provider && config.dev_mode
    then elim message.media_id [
      | none ↦ message
      | some media_id ↦
          let url = dev_media_url config media_id in
          record message {
            media_url = some url;
            thumbnail_url =
                if message.message_type == "image" then some url else message.thumbnail_url;
          }
    ]
    else message

unfoldable pub list_messages :
    AppConfig → String → Option ℤ → Option ℤ → ℕ → StoreInner → MessagesPage
list_messages config conversation_id after_seq before_seq limit inner =
    let found = map (normalize_message_media_urls config) (
      sort_by_seq (
        retain (is_between after_seq before_seq)
          (unwrap_or (lookup conversation_id inner.messages_by_conversation) []))) in
    let messages = take limit found in
    record {
      conversation_id = conversation_id;
      from_seq = map_option (λ m. m.conversation_seq) (first messages);
      to_seq = map_option (λ m. m.conversation_seq) (last messages);
      has_more = ltb limit (length found);
      messages = messages;
    }

abbrev pub under_id : String → Message → Message
under_id public_id message = record message { conversation_id = public_id }

unfoldable pub list_messages_for_conversation :
    AppConfig
    → (project_id company_id conversation_id : String) → Option ℤ
    → Option ℤ
    → ℕ
    → StoreInner
    → Result MessagesPage
list_messages_for_conversation config project_id company_id asked after_seq before_seq limit inner =
    do
      shown ← conversation project_id company_id asked inner
      let public_id = public_conversation_id shown
      let page = list_messages config shown.id after_seq before_seq limit inner
      ok (record page {
        conversation_id = public_id;
        messages = map (under_id public_id) page.messages;
      })
