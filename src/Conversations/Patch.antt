-- ===== src/Conversations/Patch.antt =====
-- src/state.rs: `patch_conversation_metadata`. The source writes the stored conversation field by
-- field, so a field that is refused leaves the earlier ones written.
use rust_zap.Prelude.{
  String, ◌<>◌, Bool, not, Option, none, some, List, [], ◌∷◌, find, if◌then◌else◌,
}
use rust_zap.Dict.{string_eq, insert}
use rust_zap.Dict.Distinct.{is_in}
use rust_zap.Text.{trim, is_empty}
use rust_zap.Json.{Value, Fields, end, field, obj, boolean, str, get, as_bool, as_str, object}
use rust_zap.Error.{ApiError, Result, ok, err, bad_request}
use rust_zap.Models.{Time, Conversation}
use rust_zap.Events.{Stamp, new_event}
use rust_zap.Store.{StoreInner, push_event_inner}
use rust_zap.Dirty.{mark_dirty_inner}
use rust_zap.Conversations.{resolve_conversation_id_inner, conversation_for_inner}

abbrev pub names_of : Fields → List String
names_of end = []
names_of (field key value rest) = key ∷ names_of rest

-- The checks of the body's shape: what is wrong with it.
abbrev pub shape_error_of : List String → Option ApiError
shape_error_of keys =
    elim (find
      (λ key. not (is_in key ("is_archived" ∷ "is_muted" ∷ "is_pinned" ∷ "control_mode" ∷ [])))
      keys) [
        | some key ↦ some (bad_request ("unsupported conversation patch field " <> key))
        | none ↦ elim keys [
          | [] ↦
              some (bad_request "conversation patch body must include at least one supported field")
          | key ∷ r ↦ none
        ]
      ]

unfoldable pub shape_error : Value → Option ApiError
shape_error (obj fields) = shape_error_of (names_of fields)
shape_error other = some (bad_request "conversation patch body must be an object")

-- A conversation as far as it was written, and what stopped the writing.
abbrev pub Patching : Type 0
Patching = Conversation × Option ApiError

abbrev and_patch : Patching → (Conversation → Patching) → Patching
and_patch (conversation, some failure) next = (conversation, some failure)
and_patch (conversation, none) next = next conversation

abbrev patch_bool : String → (Bool → Conversation → Conversation) → Value → Conversation → Patching
patch_bool key write body conversation = elim (get key body) [
  | none ↦ (conversation, none)
  | some value ↦ elim (as_bool value) [
    | none ↦ (conversation, some (bad_request (key <> " must be a boolean")))
    | some b ↦ (write b conversation, none)
  ]
]

abbrev patch_control_mode : Value → Conversation → Patching
patch_control_mode body conversation = elim (get "control_mode" body) [
  | none ↦ (conversation, none)
  | some value ↦ elim (as_str value) [
    | none ↦ (conversation, some (bad_request "control_mode must be a string"))
    | some mode ↦
        if is_empty (trim mode)
        then (conversation, some (bad_request "control_mode must not be empty"))
        else (record conversation { control_mode = mode }, none)
  ]
]

unfoldable pub patch_fields : Value → Conversation → Patching
unfolding and_patch patch_bool patch_control_mode
patch_fields body conversation =
    and_patch
      (and_patch
        (and_patch
          (patch_bool "is_archived" (λ b c. record c { is_archived = b }) body conversation)
          (patch_bool "is_muted" (λ b c. record c { is_muted = b }) body))
        (patch_bool "is_pinned" (λ b c. record c { is_pinned = b }) body))
      (patch_control_mode body)

-- What a patch draws.
pub record PatchDraws : Type 0 where
  pub now : Time
  pub stamp : Stamp
  pub dirty_now : Time
  pub dirty_stamp : Stamp

abbrev announce_patch :
    (project_id company_id : String) → Conversation → PatchDraws → StoreInner → StoreInner
announce_patch project_id company_id updated draws inner =
    mark_dirty_inner project_id company_id updated.id updated.last_seq updated.channel_account_id
      draws.dirty_now draws.dirty_stamp
      (push_event_inner
        (new_event "conversation.updated" project_id company_id (some updated.channel_account_id)
          (some updated.id) none (some updated.last_seq)
          (object (
            ("conversation_id", str updated.id)
            ∷ ("is_archived", boolean updated.is_archived)
            ∷ ("is_muted", boolean updated.is_muted)
            ∷ ("is_pinned", boolean updated.is_pinned)
            ∷ ("control_mode", str updated.control_mode)
            ∷ []))
          draws.stamp)
        inner)

unfoldable pub patch_conversation_metadata :
    (project_id company_id conversation_id : String)
    → (body : Value) → PatchDraws
    → StoreInner
    → Result Conversation × StoreInner
unfolding announce_patch
patch_conversation_metadata project_id company_id conversation_id body draws inner =
    elim (shape_error body) [
      | some failure ↦ (err failure, inner)
      | none ↦
          let id = resolve_conversation_id_inner inner project_id company_id conversation_id in
          elim (conversation_for_inner inner project_id company_id conversation_id) [
            | err failure ↦ (err failure, inner)
            | ok found ↦
                let (written, stopped) = patch_fields body found in
                elim stopped [
                  | some failure ↦ (
                    err failure,
                    record inner { conversations = insert id written inner.conversations },
                  )
                  | none ↦
                      let updated = record written { updated_at = draws.now } in
                      (
                        ok updated,
                        announce_patch project_id company_id updated draws (record inner {
                          conversations = insert id updated inner.conversations;
                        }),
                      )
                ]
          ]
    ]
