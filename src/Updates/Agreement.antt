-- ===== src/Updates/Agreement.antt =====
-- src/state.rs: the agreement of the two places of a message, under its id and in the list of its
-- conversation.
use rust_zap.Prelude.{
  String, ◌≡◌, refl, ◌∙◌, sym, ap, false, some, List, [], ◌∷◌, arith, inl, inr, Bool-cases,
  Option-cases, if◌then◌else◌, map, All,
}
use rust_zap.Dict.{Dict, ◌==◌, string_eq, lookup, insert}
use rust_zap.Dict.Laws.{lookup-insert, lookup-insert_self}
use rust_zap.Dict.Distinct.{is_in, Distinct}
use rust_zap.Models.{Message}
use rust_zap.Store.{StoreInner}
use rust_zap.Messages.{replace_message, rewrite_message}
use rust_zap.Messages.Sequence.{messages_of}

abbrev pub Messages : Type 0
Messages = Dict String Message

-- Every stored message stands under its own id.
abbrev pub IsKeyed : Messages → Type 0
IsKeyed = All (λ e. e.1.id ≡ e.0)

-- A conversation's list: its messages are of the conversation and are what stands under their ids,
-- and no two share an id.
abbrev pub IsListed : Messages → String → List Message → Type 0
IsListed by_id v ms =
    All (λ m. (lookup m.id by_id ≡ some m) × (m.conversation_id ≡ v)) ms
    × Distinct (map (λ m. m.id) ms)

pub record Agrees (s : StoreInner) : Type 0 where
  pub keyed : IsKeyed s.messages_by_id
  pub listed : (v : String) → IsListed s.messages_by_id v (messages_of v s)

pub keyed_at :
    (id : String) (d : Messages) (m : Message) → IsKeyed d → lookup id d ≡ some m → m.id ≡ id
unfolding lookup
keyed_at id [] m h at = absurd (cc at)
keyed_at id ((k, e) ∷ d) m h at = elim (Bool-cases (k == id)) [
  | inl same ↦
      let here : k ≡ id = (string_eq.beq_iff k id).0 same in
      let that : e ≡ m = ground arith in rw (← that) (h.0 ∙ here)
  | inr other ↦ keyed_at id d m h.1 (ground arith)
]

pub insert-IsKeyed :
    (m : Message) (id : String) (d : Messages) → m.id ≡ id → IsKeyed d → IsKeyed (insert id m d)
unfolding insert
insert-IsKeyed m id [] e h = (e, tt)
insert-IsKeyed m id ((k, n) ∷ d) e h = elim (Bool-cases (k == id)) [
  | inl same ↦ let here : k ≡ id = (string_eq.beq_iff k id).0 same in rw same (e ∙ sym here, h.1)
  | inr other ↦ rw other (h.0, insert-IsKeyed m id d e h.1)
]

replace-ids :
    (u : Message) (ms : List Message) → map (λ m. m.id) (replace_message u ms) ≡ map (λ m. m.id) ms
unfolding replace_message
replace-ids u [] = refl
replace-ids u (m ∷ ms) = elim (Bool-cases (m.id == u.id)) [
  | inl same ↦
      let e : m.id ≡ u.id = (string_eq.beq_iff m.id u.id).0 same in
      rw same (ap (λ (x : String). x ∷ map (λ m. m.id) ms) (sym e))
  | inr other ↦ rw other (ap (λ (x : List String). m.id ∷ x) (replace-ids u ms))
]

module _ (by_id : Messages) (u : Message) where
  abbrev Stands : String → Messages → Message → Type 0
  Stands v d m = (lookup m.id d ≡ some m) × (m.conversation_id ≡ v)

  -- A message with another id is not touched.
  apart-Stands :
      (v : String) (ms : List Message)
      → is_in u.id (map (λ m. m.id) ms) ≡ false
      → All (Stands v by_id) ms
      → All (Stands v (insert u.id u by_id)) ms
  apart-Stands v [] out h = tt
  apart-Stands v (m ∷ ms) out h =
      let other : (u.id == m.id) ≡ false =
        ground (arith, string_eq.beq_iff u.id m.id, string_eq.beq_iff m.id u.id) in
      (
        (rw (lookup-insert u.id m.id u by_id) (rw other h.0.0), h.0.1),
        apart-Stands v ms (ground arith) h.1,
      )

  replaced-Stands :
      (v : String) (ms : List Message)
      → u.conversation_id ≡ v
      → Distinct (map (λ m. m.id) ms)
      → All (Stands v by_id) ms
      → All (Stands v (insert u.id u by_id)) (replace_message u ms)
  unfolding replace_message
  replaced-Stands v [] e d h = tt
  replaced-Stands v (m ∷ ms) e d h = elim (Bool-cases (m.id == u.id)) [
    | inl same ↦
        let at : m.id ≡ u.id = (string_eq.beq_iff m.id u.id).0 same in
        rw same ((lookup-insert_self u.id u by_id, e), apart-Stands v ms (rw (← at) d.0) h.1)
    | inr other ↦
        let differs : (u.id == m.id) ≡ false =
          ground (arith, string_eq.beq_iff u.id m.id, string_eq.beq_iff m.id u.id) in
        rw other (
          (rw (lookup-insert u.id m.id u by_id) (rw differs h.0.0), h.0.1),
          replaced-Stands v ms e d.1 h.1,
        )
  ]

  elsewhere-Stands :
      (v : String) (old : Message) (ms : List Message)
      → lookup u.id by_id ≡ some old
      → old.conversation_id ≡ u.conversation_id
      → (u.conversation_id == v) ≡ false
      → All (Stands v by_id) ms
      → All (Stands v (insert u.id u by_id)) ms
  elsewhere-Stands v old [] at e out h = tt
  elsewhere-Stands v old (m ∷ ms) at e out h =
      let other : (u.id == m.id) ≡ false = elim (Bool-cases (u.id == m.id)) [
        | inr differs ↦ differs
        | inl same ↦
            let i : u.id ≡ m.id = (string_eq.beq_iff u.id m.id).0 same in
            let both : some old ≡ some m = sym at ∙ ap (λ (x : String). lookup x by_id) i ∙ h.0.0 in
            let one : old ≡ m = cc both in
            let here : u.conversation_id ≡ v =
              sym e ∙ ap (λ (x : Message). x.conversation_id) one ∙ h.0.1 in
            absurd (cc (out, (string_eq.beq_iff u.conversation_id v).1 here))
      ] in
      (
        (rw (lookup-insert u.id m.id u by_id) (rw other h.0.0), h.0.1),
        elsewhere-Stands v old ms at e out h.1,
      )

  replaced-IsListed :
      (v : String) (ms : List Message)
      → u.conversation_id ≡ v
      → IsListed by_id v ms
      → IsListed (insert u.id u by_id) v (replace_message u ms)
  replaced-IsListed v ms e h = (replaced-Stands v ms e h.1 h.0, rw (replace-ids u ms) h.1)

rewrite-messages :
    (id v : String) (u : Message) (s : StoreInner)
    → messages_of v (rewrite_message id u s)
      ≡ (if u.conversation_id == v then replace_message u (messages_of v s) else messages_of v s)
unfolding rewrite_message replace_message
rewrite-messages id v u s =
    elim (Option-cases (lookup u.conversation_id s.messages_by_conversation)) [
      | inl missing ↦ elim (Bool-cases (u.conversation_id == v)) [
        | inl same ↦
            let e : u.conversation_id ≡ v = (string_eq.beq_iff u.conversation_id v).0 same in
            rw (missing, rewrite_message) (rw same (rw (← e) (rw missing refl)))
        | inr other ↦ rw (missing, rewrite_message) (rw other refl)
      ]
      | inr (ms, found) ↦ elim (Bool-cases (u.conversation_id == v)) [
        | inl same ↦
            let e : u.conversation_id ≡ v = (string_eq.beq_iff u.conversation_id v).0 same in
            rw (found, rewrite_message)
              (rw
                (lookup-insert u.conversation_id v (replace_message u ms)
                  s.messages_by_conversation)
                (rw same (rw (← e) (rw found refl))))
        | inr other ↦
            rw (found, rewrite_message)
              (rw
                (lookup-insert u.conversation_id v (replace_message u ms)
                  s.messages_by_conversation)
                (rw other refl))
      ]
    ]

-- A rewritten message keeps its id and its conversation.
pub rewrite-Agrees :
    (u old : Message) (s : StoreInner)
    → lookup u.id s.messages_by_id ≡ some old
    → old.conversation_id ≡ u.conversation_id
    → Agrees s
    → Agrees (rewrite_message u.id u s)
unfolding rewrite_message
rewrite-Agrees u old s at e a = record {
  keyed = insert-IsKeyed u u.id s.messages_by_id refl a.keyed;
  listed = λ v. rw (rewrite-messages u.id v u s) (elim (Bool-cases (u.conversation_id == v)) [
    | inl same ↦ rw same (
        replaced-IsListed s.messages_by_id u v (messages_of v s)
          ((string_eq.beq_iff u.conversation_id v).0 same) (a.listed v))
    | inr other ↦ rw other (
      elsewhere-Stands s.messages_by_id u v old (messages_of v s) at e other (a.listed v).0,
      (a.listed v).1,
    )
  ]);
}
