-- ===== src/Conversations/Meaning.antt =====
-- src/state.rs: which conversation of the company `conversation_for_inner` finds for a text.
use rust_zap.Prelude.{
  ◌≡◌, refl, ◌∙◌, sym, subst, String, Bool, true, false, ◌&&◌, ◌||◌, Option, none, some, List, [],
  ◌∷◌, ◌++◌, arith, inl, inr, Bool-cases, Option-cases, not, is_some_and, find, any, unwrap_or,
}
use rust_zap.Text.{trim}
use rust_zap.Text.Order.{sort_texts, dedup, is_in-sorted}
use rust_zap.Dict.{◌==◌, string_eq, lookup, values}
use rust_zap.Dict.Laws.{beq_refl}
use rust_zap.Dict.Distinct.{is_in}
use rust_zap.Error.{Result, ok, err}
use rust_zap.Models.{Conversation}
use rust_zap.Store.{StoreInner, ContactRecord}
use rust_zap.Jid.{phone_to_jid}
use rust_zap.Contacts.{contact_phone_number}
use rust_zap.Contacts.Aliases.{phone_in}
use rust_zap.Conversations.{
  conversation_matches_tenant, is_phone, aliases_of, aliases_loop, is_owned,
  conversation_id_for_phone_number_inner, resolve_conversation_id_inner, only_owned,
  conversation_for_inner,
}

module _ (p c : String) where
  -- A contact of the company's with this phone number, one of whose ids this is.
  abbrev pub is_known : (phone id : String) → ContactRecord → Bool
  is_known phone id contact =
      (contact.project_id == p
        && (contact.company_id == c
            && is_some_and (contact_phone_number contact) (λ n. n == phone)))
      && (is_some_and contact.lid (λ l. l == id)
          || (is_some_and contact.canonical_jid (λ j. j == id) || contact.id == id))

  -- What a text may mean: itself; or, if it is or names a phone number, the JID of that number or an
  -- id of a contact of the company's with it.
  abbrev pub may_mean : StoreInner → (asked id : String) → Bool
  may_mean s asked id =
      trim asked == id
      || is_some_and (phone_in (trim asked))
          (λ phone. any (is_known phone id) (values s.contacts) || phone_to_jid phone == id)

  -- What is found: a conversation of the company's that the text may mean, the one under the text
  -- itself if that is the company's; nothing only if the company has none that the text may mean.
  abbrev pub IsFound : StoreInner → (asked : String) → Result Conversation → Type 0
  IsFound s asked (ok v) =
      (id : String) × (lookup id s.conversations ≡ some v)
      × (v.project_id ≡ p)
      × (v.company_id ≡ c)
      × (may_mean s asked id ≡ true)
      × ((not (is_owned s p c (trim asked)) || trim asked == id) ≡ true)
  IsFound s asked (err e) = (id : String) → (may_mean s asked id && is_owned s p c id) ≡ false

  is_in-append : (id : String) (a b : List String) → is_in id (a ++ b) ≡ (is_in id a || is_in id b)
  is_in-append id [] b = refl
  is_in-append id (x ∷ a) b = ground (arith, is_in-append id a b)

  is_phone-some :
      (o : Option String) (phone : String) → is_phone o phone ≡ is_some_and o (λ n. n == phone)
  unfolding is_phone
  is_phone-some none phone = refl
  is_phone-some (some n) phone = refl

  is_in-listed :
      (id : String) (o : Option String)
      → is_in id (elim o [ none ↦ [] | some l ↦ l ∷ [] ]) ≡ is_some_and o (λ l. l == id)
  is_in-listed id none = refl
  is_in-listed id (some l) = ground arith

  is_in-aliases_of :
      (phone id : String) (contact : ContactRecord)
      → is_in id (aliases_of p c phone contact) ≡ is_known phone id contact
  unfolding aliases_of
  is_in-aliases_of phone id contact =
      let lids : List String = elim contact.lid [ none ↦ [] | some l ↦ l ∷ [] ] in
      let jids : List String = elim contact.canonical_jid [ none ↦ [] | some j ↦ j ∷ [] ] in
      ground (
        arith,
        is_phone-some (contact_phone_number contact) phone,
        is_in-append id lids (jids ++ contact.id ∷ []),
        is_in-append id jids (contact.id ∷ []),
        is_in-listed id contact.lid,
        is_in-listed id contact.canonical_jid,
      )

  is_in-aliases_loop :
      (phone id : String) (contacts : List ContactRecord)
      → is_in id (aliases_loop p c phone contacts) ≡ any (is_known phone id) contacts
  unfolding aliases_loop
  is_in-aliases_loop phone id [] = refl
  is_in-aliases_loop phone id (contact ∷ r) =
      is_in-append id (aliases_of p c phone contact) (aliases_loop p c phone r)
      ∙ rw (is_in-aliases_of phone id contact, is_in-aliases_loop phone id r) refl

  find-some :
      (q : String → Bool) (ids : List String) (id : String)
      → find q ids ≡ some id
      → (q id ≡ true) × (is_in id ids ≡ true)
  find-some q [] id h = absurd (cc h)
  find-some q (x ∷ r) id h = elim (Bool-cases (q x)) [
    | inl hit ↦
        let at : some x ≡ some id = sym (rw hit refl) ∙ h in
        let same : x ≡ id = cc at in (rw (← same) hit, rw (same, beq_refl id) refl)
    | inr miss ↦
        let on : find q r ≡ some id = sym (rw miss refl) ∙ h in
        let (holds, there) = find-some q r id on in (holds, rw there (ground arith))
  ]

  find-none :
      (q : String → Bool) (ids : List String) (id : String)
      → find q ids ≡ none
      → (is_in id ids && q id) ≡ false
  find-none q [] id h = refl
  find-none q (x ∷ r) id h = elim (Bool-cases (q x)) [
    | inl hit ↦ let at : some x ≡ none = sym (rw hit refl) ∙ h in absurd (cc at)
    | inr miss ↦
        let on : find q r ≡ none = sym (rw miss refl) ∙ h in
        let later = find-none q r id on in ground (arith, string_eq.beq_iff x id)
  ]

  -- The ids that are tried for a phone number.
  is_in-tried :
      (phone id : String) (s : StoreInner)
      → is_in id (
          dedup
            (sort_texts (aliases_loop p c phone (values s.contacts) ++ phone_to_jid phone ∷ [])))
        ≡ (any (is_known phone id) (values s.contacts) || phone_to_jid phone == id)
  is_in-tried phone id s =
      is_in-sorted id (aliases_loop p c phone (values s.contacts) ++ phone_to_jid phone ∷ [])
      ∙ is_in-append id (aliases_loop p c phone (values s.contacts)) (phone_to_jid phone ∷ [])
      ∙ rw (is_in-aliases_loop phone id (values s.contacts)) (ground arith)

  -- What is known of the id that a text is resolved to.
  abbrev pub IsChosen : StoreInner → (asked id : String) → Type 0
  IsChosen s asked id =
      (may_mean s asked id ≡ true)
      × ((not (is_owned s p c (trim asked)) || trim asked == id) ≡ true)
      × ((j : String) → (may_mean s asked j && is_owned s p c j && not (is_owned s p c id)) ≡ false)

  phone-IsChosen :
      (s : StoreInner) (asked phone : String)
      → is_owned s p c (trim asked) ≡ false
      → phone_in (trim asked) ≡ some phone
      → IsChosen s asked
          (unwrap_or (conversation_id_for_phone_number_inner s p c phone) (phone_to_jid phone))
  unfolding conversation_id_for_phone_number_inner
  phone-IsChosen s asked phone foreign names =
      let ids =
        dedup
          (sort_texts (aliases_loop p c phone (values s.contacts) ++ phone_to_jid phone ∷ [])) in
      elim (Option-cases (find (is_owned s p c) ids)) [
        | inr (id, e) ↦
            let (own, there) = find-some (is_owned s p c) ids id e in
            let known = sym (is_in-tried phone id s) ∙ there in
            rw e (rw names (rw known (ground arith)), rw foreign refl, λ j. rw own (ground arith))
        | inl missing ↦ rw missing (
          rw names (rw (beq_refl (phone_to_jid phone)) (ground arith)),
          rw foreign refl,
          λ j.
              let tried = find-none (is_owned s p c) ids j missing in
              let known = is_in-tried phone j s in
              let itself = string_eq.beq_iff (trim asked) j in
              rw names (ground (arith, tried, known, itself, foreign)),
        )
      ]

  resolved-IsChosen :
      (s : StoreInner) (asked : String)
      → IsChosen s asked (resolve_conversation_id_inner s p c asked)
  unfolding resolve_conversation_id_inner
  resolved-IsChosen s asked = elim (Bool-cases (is_owned s p c (trim asked))) [
    | inl own ↦
        rw (own, resolve_conversation_id_inner)
          (
            rw (beq_refl (trim asked)) refl,
            rw (beq_refl (trim asked)) refl,
            λ j. rw own (ground arith),
          )
    | inr foreign ↦ elim (Option-cases (phone_in (trim asked))) [
      | inr (phone, e) ↦
          let tried =
            unwrap_or (conversation_id_for_phone_number_inner s p c phone) (phone_to_jid phone) in
          let at : resolve_conversation_id_inner s p c asked ≡ tried =
            rw (foreign, resolve_conversation_id_inner) (rw e refl) in
          subst (IsChosen s asked) (sym at) (phone-IsChosen s asked phone foreign e)
      | inl bare ↦
          rw (foreign, resolve_conversation_id_inner)
            (rw bare (
              rw (beq_refl (trim asked)) refl,
              refl,
              λ j. let itself = string_eq.beq_iff (trim asked) j in ground (arith, itself, foreign),
            ))
    ]
  ]

  only_owned-IsFound :
      (s : StoreInner) (asked id : String)
      → IsChosen s asked id
      → IsFound s asked (only_owned p c (lookup id s.conversations))
  unfolding only_owned
  only_owned-IsFound s asked id (may, first, others) =
      elim (Option-cases (lookup id s.conversations)) [
        | inl missing ↦
            let no : is_owned s p c id ≡ false = rw missing refl in
            rw (missing, only_owned) (λ j. ground (arith, others j, no))
        | inr (v, e) ↦ elim (Bool-cases (conversation_matches_tenant v p c)) [
          | inr foreign ↦
              let no : is_owned s p c id ≡ false = rw e foreign in
              rw (e, only_owned) (rw foreign (λ j. ground (arith, others j, no)))
          | inl own ↦
              let project = string_eq.beq_iff v.project_id p in
              let company = string_eq.beq_iff v.company_id c in
              rw (e, only_owned)
                (rw own
                  (id, e, ground (arith, project, own), ground (arith, company, own), may, first))
        ]
      ]

  -- The conversation that a company is given for a text is its own and one that the text may mean:
  -- the one under the text itself, if that is the company's; else one under the JID of the phone
  -- number that the text names, or under an id of a contact of the company's with that number. It is
  -- given none only if it has none that the text may mean.
  pub conversation_for_inner-IsFound :
      (s : StoreInner) (asked : String) → IsFound s asked (conversation_for_inner s p c asked)
  unfolding conversation_for_inner
  conversation_for_inner-IsFound s asked =
      only_owned-IsFound s asked (resolve_conversation_id_inner s p c asked)
        (resolved-IsChosen s asked)
