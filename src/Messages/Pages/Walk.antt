-- ===== src/Messages/Pages/Walk.antt =====
-- A reader who follows the cursor of `list_messages` from page to page.
use rust_zap.Prelude.{
  ℕ, zero, suc, ◌≤◌, ◌<◌, String, ◌≡◌, refl, ◌∙◌, sym, ap, subst, true, false, Option, none, some,
  List, [], ◌∷◌, ◌++◌, arith, inl, inr, Bool-cases, map_option, if◌then◌else◌, All, length, take,
  drop, retain, map, first, last, ltb, append_assoc, take_all, append-take-drop, last-append,
  length-map, take-map, map-append,
}
use rust_zap.Prelude.Int.{ℤ, ◌<ℤ◌, leb_ℤ, ltb_ℤ}
use rust_zap.Dict.{string_eq}
use rust_zap.Models.{Message}
use rust_zap.Config.{AppConfig}
use rust_zap.Store.{StoreInner}
use rust_zap.Messages.Sequence.{Numbered, messages_of}
use rust_zap.Messages.Pages.{
  MessagesPage, is_between, insert_by_seq, sort_by_seq, normalize_message_media_urls, list_messages,
}

-- All pages of a conversation after a cursor, each asked for at the last page's `to_seq`, until
-- one says that there is no more. `fuel` bounds the number of pages.
abbrev pub read_pages : AppConfig → String → ℕ → StoreInner → ℕ → Option ℤ → List Message
read_pages config v limit s zero cursor = []
read_pages config v limit s (suc fuel) cursor =
    let page = list_messages config v cursor none limit s in
    let rest = read_pages config v limit s fuel page.to_seq in
    if page.has_more then page.messages ++ rest else page.messages

sort_by_seq-Numbered : (n : ℤ) (r : List Message) → Numbered r n → sort_by_seq r ≡ r
unfolding sort_by_seq insert_by_seq
sort_by_seq-Numbered n [] h = refl
sort_by_seq-Numbered n (a ∷ []) h = refl
sort_by_seq-Numbered n (a ∷ b ∷ r) h =
    let before : a.conversation_seq <ℤ b.conversation_seq = h.1.0 in
    let first_is : leb_ℤ a.conversation_seq b.conversation_seq ≡ true = ground arith in
    rw (sort_by_seq-Numbered n (b ∷ r) h.2) (rw first_is refl)

retain_all : (r : List Message) → retain (is_between none none) r ≡ r
retain_all [] = refl
retain_all (a ∷ r) = ap (λ (x : List Message). a ∷ x) (retain_all r)

retain_above :
    (m : Message) (r : List Message)
    → All (λ k. m.conversation_seq <ℤ k.conversation_seq) r
    → retain (is_between (some m.conversation_seq) none) r ≡ r
retain_above m [] h = refl
retain_above m (a ∷ r) h =
    let kept : ltb_ℤ m.conversation_seq a.conversation_seq ≡ true = ground arith in
    rw kept (ap (λ (x : List Message). a ∷ x) (retain_above m r h.1))

above-append :
    (a : Message) (r : List Message) (m : Message) (x : List Message)
    → All (λ k. a.conversation_seq <ℤ k.conversation_seq) (r ++ m ∷ x)
    → a.conversation_seq <ℤ m.conversation_seq
above-append a [] m x h = h.0
above-append a (b ∷ r) m x h = above-append a r m x h.1

-- What is left after a message that has a place in a rising list is what stands behind it.
retain_behind :
    (n : ℤ) (r : List Message) (m : Message) (x : List Message)
    → Numbered (r ++ m ∷ x) n
    → retain (is_between (some m.conversation_seq) none) (r ++ m ∷ x) ≡ x
retain_behind n [] m x h =
    let dropped : ltb_ℤ m.conversation_seq m.conversation_seq ≡ false = ground arith in
    rw dropped (retain_above m x h.1)
retain_behind n (a ∷ r) m x h =
    let before : a.conversation_seq <ℤ m.conversation_seq = above-append a r m x h.1 in
    let dropped : ltb_ℤ m.conversation_seq a.conversation_seq ≡ false = ground arith in
    rw dropped (retain_behind n r m x h.2)

-- `x` is what a rising list has behind a cursor.
data Behind (r : List Message) : Option ℤ → List Message → Type 0 where
  start : Behind r none r
  behind :
      (q : List Message) (m : Message) (x : List Message)
      → r ≡ q ++ m ∷ x
      → Behind r (some m.conversation_seq) x

retain-Behind :
    (n : ℤ) (r : List Message)
    → Numbered r n
    → {cursor : Option ℤ} {x : List Message} → Behind r cursor x
    → retain (is_between cursor none) r ≡ x
retain-Behind n r h Behind.start = retain_all r
retain-Behind n r h (Behind.behind q m x e) =
    ap (retain (is_between (some m.conversation_seq) none)) e ∙ retain_behind n q m x (rw (← e) h)

Numbered-behind :
    (n : ℤ) (q : List Message) (m : Message) (x : List Message)
    → Numbered (q ++ m ∷ x) n
    → Numbered x n
Numbered-behind n [] m x h = h.2
Numbered-behind n (a ∷ q) m x h = Numbered-behind n q m x h.2

Behind-Numbered :
    (n : ℤ) (r : List Message)
    → Numbered r n
    → {cursor : Option ℤ} {x : List Message} → Behind r cursor x
    → Numbered x n
Behind-Numbered n r h Behind.start = h
Behind-Numbered n r h (Behind.behind q m x e) = Numbered-behind n q m x (rw (← e) h)

-- A cursor moves on over the messages of a page.
Behind-next :
    {r : List Message} {cursor : Option ℤ} {x : List Message} (q : List Message) (m : Message)
    (y : List Message)
    → x ≡ q ++ m ∷ y
    → Behind r cursor x
    → Behind r (some m.conversation_seq) y
Behind-next q m y e Behind.start = Behind.behind q m y e
Behind-next q m y e (Behind.behind p k x d) =
    Behind.behind (p ++ k ∷ q) m y
      (d ∙ ap (λ (z : List Message). p ++ k ∷ z) e ∙ sym (append_assoc p (k ∷ q) (m ∷ y)))

-- A page that is full ends in a message.
page_end :
    (limit : ℕ) (x : List Message)
    → limit < length x
    → (q : List Message) × (m : Message) × (take (suc limit) x ≡ q ++ m ∷ [])
page_end limit [] h = absurd (omega arith)
page_end zero (a ∷ x) h = ([], a, refl)
page_end (suc limit) (a ∷ x) h =
    let (q, m, e) = page_end limit x (omega arith) in (a ∷ q, m, ap (λ (z : List Message). a ∷ z) e)

length-drop : (q : List Message) (m : Message) (y : List Message) → length y < length (q ++ m ∷ y)
length-drop [] m y = omega arith
length-drop (a ∷ q) m y = omega (arith, length-drop q m y)

normalize-seq :
    (config : AppConfig) (m : Message)
    → (normalize_message_media_urls config m).conversation_seq ≡ m.conversation_seq
unfolding normalize_message_media_urls
normalize-seq config m = ground arith

-- The page that `x`, what stands behind a cursor, gives.
abbrev page_from : AppConfig → String → ℕ → List Message → MessagesPage
page_from config v limit x =
    let found = map (normalize_message_media_urls config) x in
    record {
      conversation_id = v;
      from_seq = map_option (λ m. m.conversation_seq) (first (take limit found));
      to_seq = map_option (λ m. m.conversation_seq) (last (take limit found));
      has_more = ltb limit (length found);
      messages = take limit found;
    }

module _ (config : AppConfig) (v : String) (limit : ℕ) (s : StoreInner) (n : ℤ)
    (h : Numbered (messages_of v s) n) where
  page_lem :
      (cursor : Option ℤ) (x : List Message)
      → Behind (messages_of v s) cursor x
      → list_messages config v cursor none limit s ≡ page_from config v limit x
  unfolding list_messages
  page_lem cursor x b =
      ap (λ (y : List Message). page_from config v limit (sort_by_seq y))
        (retain-Behind n (messages_of v s) h b)
      ∙ ap (page_from config v limit)
          (sort_by_seq-Numbered n x (Behind-Numbered n (messages_of v s) h b))

module _ (config : AppConfig) (v : String) (k : ℕ) (s : StoreInner) (n : ℤ)
    (h : Numbered (messages_of v s) n) where
  abbrev norm : Message → Message
  norm = normalize_message_media_urls config

  to_seq_lem :
      (x q : List Message) (m : Message)
      → take (suc k) x ≡ q ++ m ∷ []
      → map_option (λ u. u.conversation_seq) (last (take (suc k) (map norm x)))
        ≡ some m.conversation_seq
  to_seq_lem x q m e =
      rw
        (
          take-map norm (suc k) x,
          e,
          map-append norm q (m ∷ []),
          last-append (map norm q) (norm m),
          normalize-seq config m,
        )
        refl

  read_last :
      (fuel : ℕ) (cursor : Option ℤ) (x : List Message)
      → Behind (messages_of v s) cursor x
      → ltb (suc k) (length x) ≡ false
      → read_pages config v (suc k) s (suc fuel) cursor ≡ map norm x
  read_last fuel cursor x b last_page =
      let fits : length (map norm x) ≤ suc k = rw (length-map norm x) (ground arith) in
      rw
        (
          page_lem config v (suc k) s n h cursor x b,
          length-map norm x,
          last_page,
          take_all (suc k) (map norm x) fits,
        )
        refl

  read_from :
      (fuel : ℕ) (cursor : Option ℤ) (x : List Message)
      → length x ≤ fuel
      → Behind (messages_of v s) cursor x
      → read_pages config v (suc k) s (suc fuel) cursor ≡ map norm x
  read_from zero cursor x small b = read_last zero cursor x b (ground arith)
  read_from (suc fuel) cursor x small b = elim (Bool-cases (ltb (suc k) (length x))) [
    | inr last_page ↦ read_last (suc fuel) cursor x b last_page
    | inl more ↦
        let (q, m, e) = page_end k x (ground arith) in
        let y = drop (suc k) x in
        let split : x ≡ q ++ m ∷ y =
          sym (append-take-drop (suc k) x)
          ∙ ap (λ (z : List Message). z ++ y) e
          ∙ append_assoc q (m ∷ []) y in
        let shorter : length y < length x =
          subst (λ (z : List Message). length y < length z) (sym split) (length-drop q m y) in
        let next = Behind-next q m y split b in
        rw (page_lem config v (suc k) s n h cursor x b, length-map norm x, more)
          (rw (to_seq_lem x q m e, take-map norm (suc k) x)
            (rw (read_from fuel (some m.conversation_seq) y (omega arith) next) (
              sym (map-append norm (take (suc k) x) y)
              ∙ ap (map norm) (append-take-drop (suc k) x))))
  ]

  -- With pages of at least one message, and a rising list of messages in the conversation, a reader
  -- who follows the cursor sees every stored message once, in order, with its media addresses as
  -- `list_messages` shows them, after at most one page more than there are messages.
  pub list_messages-read_pages :
      read_pages config v (suc k) s (suc (length (messages_of v s))) none
      ≡ map (normalize_message_media_urls config) (messages_of v s)
  list_messages-read_pages =
      read_from (length (messages_of v s)) none (messages_of v s) (omega arith) Behind.start
