-- ===== src/Dispatch/Ended.antt =====
-- src/state.rs: a message of a company whose dispatch has ended, under the changes that
-- `edit_message` makes.
use rust_zap.Prelude.{
  ◌≡◌, refl, ◌∙◌, sym, ap, String, Bool, true, ◌&&◌, Option, some, inl, inr, Bool-cases,
  Option-cases,
}
use rust_zap.Dict.{Dict, ◌==◌, string_eq, lookup}
use rust_zap.Dict.Laws.{lookup-insert}
use rust_zap.Error.{Result, ok, err}
use rust_zap.Models.{Time, Message}
use rust_zap.Store.{StoreInner, push_event_inner}
use rust_zap.Dirty.{mark_dirty_inner}
use rust_zap.Messages.{rewrite_message}
use rust_zap.Updates.{
  UpdateDraws, edit_message, announcing, message_event, mark_message_dirty, with_dispatch,
  with_flag, update_outbound_after_dispatch,
}
use rust_zap.Dispatch.{is_terminal}

-- The message under an id is the company's.
abbrev pub Owned : String → String → String → Message → StoreInner → Type 0
Owned p c id m s =
    (lookup id s.messages_by_id ≡ some m) × ((m.project_id == p && m.company_id == c) ≡ true)

module _ (p c id : String) where
  -- The message is the company's, and its dispatch has ended.
  abbrev pub IsEnded : StoreInner → Type 0
  IsEnded s = (m : Message) × (is_terminal m.status ≡ true) × Owned p c id m s

  pub kept : (s t : StoreInner) → t.messages_by_id ≡ s.messages_by_id → IsEnded s → IsEnded t
  kept s t e (m, final, o) =
      (m, final, (ap (λ (d : Dict String Message). lookup id d) e ∙ o.0, o.1))

  -- A change that leaves a message whose dispatch has ended the company's, and ended.
  abbrev pub Fits : (Message → Message) → Type 0
  Fits change =
      (m : Message)
      → is_terminal m.status ≡ true
      → (is_terminal (change m).status ≡ true)
        × ((change m).project_id ≡ m.project_id)
        × ((change m).company_id ≡ m.company_id)

  pub put-IsEnded :
      (key : String) (new : Message) (s : StoreInner)
      → ((key == id) ≡ true
          → (is_terminal new.status ≡ true) × ((new.project_id == p && new.company_id == c) ≡ true))
      → IsEnded s
      → IsEnded (rewrite_message key new s)
  unfolding rewrite_message
  put-IsEnded key new s h (m, final, o) = elim (Bool-cases (key == id)) [
    | inl same ↦
        (new, (h same).0, (rw (lookup-insert key id new s.messages_by_id, same) refl, (h same).1))
    | inr other ↦ (m, final, (rw (lookup-insert key id new s.messages_by_id, other) o.0, o.1))
  ]

  pub edit_message-IsEnded :
      (key : String) (change : Message → Message) (s : StoreInner)
      → ((key == id) ≡ true → Fits change)
      → IsEnded s
      → IsEnded (edit_message key change s).1
  unfolding edit_message
  edit_message-IsEnded key change s h (m, final, o) =
      elim (Option-cases (lookup key s.messages_by_id)) [
        | inl missing ↦ rw (missing, edit_message) (m, final, o)
        | inr (old, e) ↦
            rw (e, edit_message)
              (put-IsEnded key (change old) s
                (λ same.
                  let name : key ≡ id = (string_eq.beq_iff key id).0 same in
                  let at : lookup id s.messages_by_id ≡ some old =
                    ap (λ (k : String). lookup k s.messages_by_id) (sym name) ∙ e in
                  let one : m ≡ old = cc (at, o.0) in
                  let (ends, project, company) =
                    h same old (ap (λ (n : Message). is_terminal n.status) (sym one) ∙ final) in
                  (ends, rw (project, company, ← one) o.1))
                (m, final, o))
      ]

  pub announcing-IsEnded :
      (announce : Message → StoreInner → StoreInner) (out : Result Message × StoreInner)
      → ((m : Message) (s : StoreInner) → (announce m s).messages_by_id ≡ s.messages_by_id)
      → IsEnded out.1
      → IsEnded (announcing announce out).1
  unfolding announcing
  announcing-IsEnded announce (err e, s) h k = k
  announcing-IsEnded announce (ok m, s) h k = kept s (announce m s) (h m s) k

  pub with_flag-Fits : (kind : String) (value : Bool) (now : Time) → Fits (with_flag kind value now)
  unfolding with_flag
  with_flag-Fits kind value now m final = elim (Bool-cases (kind == "pin")) [
    | inl pin ↦ rw (pin, with_flag) (final, refl, refl)
    | inr other ↦ elim (Bool-cases (kind == "star")) [
      | inl star ↦ rw (other, with_flag) (rw star (final, refl, refl))
      | inr none_of ↦ rw (other, with_flag) (rw none_of (final, refl, refl))
    ]
  ]

  pub update-IsEnded :
      (key : String) (wa_id : Option String) (status : String) (error : Option String)
      (draws : UpdateDraws) (s : StoreInner)
      → is_terminal status ≡ true
      → IsEnded s
      → IsEnded (update_outbound_after_dispatch key wa_id status error draws s).1
  unfolding update_outbound_after_dispatch message_event mark_message_dirty mark_dirty_inner
      push_event_inner with_dispatch
  update-IsEnded key wa_id status error draws s final k =
      announcing-IsEnded _ (edit_message key (with_dispatch wa_id status error draws.now) s)
        (λ m t. refl)
        (edit_message-IsEnded key (with_dispatch wa_id status error draws.now) s
          (λ same m h. (final, refl, refl)) k)
