-- ===== src/Retention/Agreement.antt =====
-- src/state.rs: the two places of a message under a round of retention.
use rust_zap.Prelude.{
  ◌≡◌, refl, sym, ◌∙◌, subst, String, Bool, Option, none, some, List, [], ◌∷◌, not, inl, inr,
  Bool-cases, retain, map_option, unwrap_or, All,
}
use rust_zap.Dict.{string_eq, lookup}
use rust_zap.Dict.Distinct.{is_in}
use rust_zap.Dict.Retain.{lookup-retain_keys, lookup-map_values, Distinct-retain}
use rust_zap.Models.{Time, Message}
use rust_zap.Store.{StoreInner}
use rust_zap.Messages.Sequence.{messages_of}
use rust_zap.Updates.Agreement.{Messages, IsKeyed, Agrees}
use rust_zap.Retention.{
  CompanyPrivacyPolicy, removable_message_ids, removable_media_ids, remove_messages,
  apply_company_retention,
}
use rust_zap.Retention.Removed.{retention_frame}

module _ (ids : List String) where
  abbrev stays : String × Message → Bool
  stays e = not (is_in e.0 ids)

  abbrev stays_listed : Message → Bool
  stays_listed m = not (is_in m.id ids)

  retain-IsKeyed : (d : Messages) → IsKeyed d → IsKeyed (retain stays d)
  retain-IsKeyed [] h = tt
  retain-IsKeyed (e ∷ d) h = elim (Bool-cases (stays e)) [
    | inl kept ↦ rw kept (h.0, retain-IsKeyed d h.1)
    | inr out ↦ rw out (retain-IsKeyed d h.1)
  ]

  retain-Stands :
      (d : Messages) (v : String) (ms : List Message)
      → All (λ m. (lookup m.id d ≡ some m) × (m.conversation_id ≡ v)) ms
      → All
          (λ m. (lookup m.id (retain stays d) ≡ some m) × (m.conversation_id ≡ v))
          (retain stays_listed ms)
  retain-Stands d v [] h = tt
  retain-Stands d v (m ∷ ms) h = elim (Bool-cases (stays_listed m)) [
    | inl kept ↦ rw kept (
      (lookup-retain_keys (λ (i : String). not (is_in i ids)) m.id d ∙ rw kept h.0.0, h.0.1),
      retain-Stands d v ms h.1,
    )
    | inr out ↦ rw out (retain-Stands d v ms h.1)
  ]

  kept_list :
      (o : Option (List Message))
      → unwrap_or (map_option (retain stays_listed) o) [] ≡ retain stays_listed (unwrap_or o [])
  kept_list none = refl
  kept_list (some ms) = refl

  remove-Agrees :
      (media : List String) (s : StoreInner) → Agrees s → Agrees (remove_messages ids media s)
  unfolding remove_messages
  remove-Agrees media s a = record {
    keyed = retain-IsKeyed s.messages_by_id a.keyed;
    listed = λ v. rw (lookup-map_values (retain stays_listed) v s.messages_by_conversation) (
        rw (kept_list (lookup v s.messages_by_conversation)) (
          retain-Stands s.messages_by_id v (messages_of v s) (a.listed v).0,
          Distinct-retain (λ (m : Message). m.id) stays_listed (messages_of v s) (a.listed v).1,
        ));
  }

-- A round of retention keeps the two copies of every message in agreement.
pub retention-Agrees :
    (delete_blocking : String → Bool) (p c : String) (policy : CompanyPrivacyPolicy) (now : Time)
    (s : StoreInner)
    → Agrees s
    → Agrees (apply_company_retention p c policy now delete_blocking s).1
retention-Agrees delete_blocking p c policy now s a =
    let removed =
      remove-Agrees (removable_message_ids p c policy now delete_blocking s)
        (removable_media_ids p c policy now delete_blocking s) s a in
    subst Agrees (sym (retention_frame delete_blocking p c policy now s))
      (record { keyed = removed.keyed; listed = removed.listed })
