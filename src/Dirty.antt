-- ===== src/Dirty.antt =====
-- src/state.rs: dirty conversations. `mark_dirty_inner` raises the flag, `list_dirty` leases what a
-- consumer has not processed, `ack_dirty` gives a lease back and takes the flag down.
pub mod Frames
pub mod NoLoss
pub mod Acks
pub mod Leases
pub mod Listed
use rust_zap.Prelude.{
  ℕ, suc, ◌+◌, String, Bool, true, false, ◌&&◌, ◌||◌, Option, none, some, List, [], ◌∷◌, ◌++◌, min,
  leb, ltb, length, all, any, retain, unwrap_or, if◌then◌else◌, not, map,
}
use rust_zap.Prelude.Int.{ℤ, pos, max_ℤ, leb_ℤ, ltb_ℤ}
use rust_zap.Dict.{
  Dict, ◌==◌, string_eq, triple_eq, quadruple_eq, lookup, insert, remove, modify_or_insert,
}
use rust_zap.Error.{Result, ok, err, not_found, conflict}
use rust_zap.Models.{Time, seconds, DirtyConversationItem, DirtyAckRequest}
use rust_zap.Events.{Stamp, dirty_signal}
use rust_zap.Store.{StoreInner, DirtyRecord, DirtyLeaseRecord, Key₃, Key₄, push_event_inner}

-- `DirtyRecord::updated`, after the greater sequence number is kept.
pub raise_dirty : ℤ → Time → DirtyRecord → DirtyRecord
raise_dirty max_seq now dirty = record dirty {
  max_seq = max_ℤ dirty.max_seq max_seq;
  available_at = min dirty.available_at now;
}

pub new_dirty : String → ℤ → Time → DirtyRecord
new_dirty conversation_id max_seq now = record {
  conversation_id = conversation_id;
  max_seq = max_seq;
  reason = "new_message";
  priority = pos 100;
  available_at = now;
  lease_token = none;
  locked_until = none;
}

unfoldable pub mark_dirty_inner :
    (project_id company_id conversation_id : String)
    → ℤ
    → (channel_id : String) → Time
    → Stamp
    → StoreInner
    → StoreInner
unfolding raise_dirty new_dirty push_event_inner dirty_signal
mark_dirty_inner project_id company_id conversation_id max_seq channel_id now stamp inner =
    push_event_inner
      (dirty_signal project_id company_id channel_id conversation_id max_seq "new_message" (pos 100)
        stamp)
      (record inner {
        dirty =
            modify_or_insert (project_id, company_id, conversation_id) (raise_dirty max_seq now)
              (new_dirty conversation_id max_seq now) inner.dirty;
      })

-- What the loop of `list_dirty` gathers.
pub record Leasing : Type 0 where
  pub leases : List (Key₄ × DirtyLeaseRecord)
  pub consumer_entries : List (Key₄ × ℤ)
  pub items : List DirtyConversationItem

-- `items.len() >= limit`
unfoldable pub is_full : ℕ → Leasing → Bool
is_full limit acc = leb limit (length acc.items)

abbrev pub processed_seq : Dict Key₄ ℤ → Key₄ → ℤ
processed_seq consumer_state key = unwrap_or (lookup key consumer_state) (pos 0)

module _ (project_id company_id consumer_id : String) where
  -- The two `continue`s of the loop's body.
  unfoldable pub is_leasable : Dict Key₄ ℤ → Key₃ × DirtyRecord → Bool
  is_leasable consumer_state ((dirty_project, dirty_company, conversation_id), dirty) =
      dirty_project == project_id
      && (dirty_company == company_id
          && ltb_ℤ
              (processed_seq consumer_state (project_id, company_id, consumer_id, conversation_id))
              dirty.max_seq)

  abbrev lease_key : Key₃ × DirtyRecord → Key₄
  lease_key ((_, _, conversation_id), dirty) =
      (project_id, company_id, consumer_id, conversation_id)

  -- The pushes of one round; `token` is what the round draws.
  pub add_lease : Dict Key₄ ℤ → Time → String → Key₃ × DirtyRecord → Leasing → Leasing
  add_lease consumer_state now token (key, dirty) acc =
      let full_key = lease_key (key, dirty) in
      let locked_until = now + seconds 60 in
      record {
        leases =
            acc.leases
            ++ (
              full_key,
              record { lease_token = token; locked_until = locked_until; max_seq = dirty.max_seq },
            )
              ∷ [];
        consumer_entries =
            acc.consumer_entries ++ (full_key, processed_seq consumer_state full_key) ∷ [];
        items =
            acc.items
            ++ record {
              conversation_id = dirty.conversation_id;
              max_seq = dirty.max_seq;
              reason = dirty.reason;
              priority = dirty.priority;
              available_at = dirty.available_at;
              lease_token = token;
              locked_until = locked_until;
            }
              ∷ [];
      }

  -- The loop over `inner.dirty`. `token k` is what the round with k items behind it draws.
  pub lease_loop : Dict Key₄ ℤ → Time → (ℕ → String) → ℕ → Dict Key₃ DirtyRecord → Leasing → Leasing
  unfolding add_lease is_leasable is_full
  lease_loop consumer_state now token limit [] acc = acc
  lease_loop consumer_state now token limit (entry ∷ rest) acc =
      elim (is_leasable consumer_state entry) [
        | false ↦ lease_loop consumer_state now token limit rest acc
        | true ↦
            let acc' = add_lease consumer_state now (token (length acc.items)) entry acc in
            elim (is_full limit acc') [
              | true ↦ acc'
              | false ↦ lease_loop consumer_state now token limit rest acc'
            ]
      ]

-- `extend`, and `entry(key).or_insert(processed)` for each entry.
pub extend_leases :
    List (Key₄ × DirtyLeaseRecord) → Dict Key₄ DirtyLeaseRecord → Dict Key₄ DirtyLeaseRecord
extend_leases [] m = m
extend_leases ((k, l) ∷ r) m = extend_leases r (insert k l m)

pub register_consumers : List (Key₄ × ℤ) → Dict Key₄ ℤ → Dict Key₄ ℤ
register_consumers [] m = m
register_consumers ((k, n) ∷ r) m = register_consumers r (modify_or_insert k (λ old. old) n m)

-- `b.priority.cmp(&a.priority).then(a.available_at.cmp(&b.available_at))` is not `Greater`.
abbrev pub comes_first : DirtyConversationItem → DirtyConversationItem → Bool
comes_first a b =
    ltb_ℤ b.priority a.priority
    || leb_ℤ a.priority b.priority
      && (leb_ℤ b.priority a.priority && leb a.available_at b.available_at)

-- `sort_by` is a stable sort, so any stable sort gives its result.
pub insert_item : DirtyConversationItem → List DirtyConversationItem → List DirtyConversationItem
insert_item a [] = a ∷ []
insert_item a (b ∷ r) = if comes_first a b then a ∷ b ∷ r else b ∷ insert_item a r

pub sort_items : List DirtyConversationItem → List DirtyConversationItem
unfolding insert_item
sort_items [] = []
sort_items (a ∷ r) = insert_item a (sort_items r)

pub gather :
    (project_id company_id consumer_id : String) → ℕ → Time → (ℕ → String) → StoreInner → Leasing
unfolding lease_loop
gather project_id company_id consumer_id limit now token inner =
    lease_loop project_id company_id consumer_id inner.consumer_state now token limit inner.dirty
      (record { leases = []; consumer_entries = []; items = [] })

unfoldable pub list_dirty :
    (project_id company_id consumer_id : String)
    → ℕ
    → Time
    → (ℕ → String)
    → StoreInner
    → StoreInner × List DirtyConversationItem
unfolding gather extend_leases register_consumers sort_items
list_dirty project_id company_id consumer_id limit now token inner =
    let gathered = gather project_id company_id consumer_id limit now token inner in
    (
      record inner {
        dirty_leases = extend_leases gathered.leases inner.dirty_leases;
        consumer_state = register_consumers gathered.consumer_entries inner.consumer_state;
      },
      sort_items gathered.items,
    )

-- The reply of `ack_dirty`: whether the conversation stays dirty, and up to where.
pub data Acked : Type 0 where
  clean : Acked
  still_dirty : ℤ → Acked

abbrev pub is_done : String → String → String → ℤ → Key₄ × ℤ → Bool
is_done project_id company_id conversation_id max_seq ((p, c, _, v), processed) =
    not (p == project_id && (c == company_id && v == conversation_id)) || leb_ℤ max_seq processed

-- `.filter(…).all(…)` over `consumer_state`.
abbrev pub all_consumers_done : String → String → String → ℤ → Dict Key₄ ℤ → Bool
all_consumers_done project_id company_id conversation_id max_seq =
    all (is_done project_id company_id conversation_id max_seq)

-- What `ack_dirty` does once the lease is accepted.
pub settle : Key₃ → Key₄ → DirtyRecord → ℤ → StoreInner → Result Acked × StoreInner
settle (project_id, company_id, conversation_id) lease_key dirty processed_until_seq inner =
    let consumers = insert lease_key processed_until_seq inner.consumer_state in
    let leases = remove lease_key inner.dirty_leases in
    if leb_ℤ dirty.max_seq processed_until_seq
      && all_consumers_done project_id company_id conversation_id dirty.max_seq consumers
    then (
      ok clean,
      record inner {
        dirty_leases = leases;
        consumer_state = consumers;
        dirty = remove (project_id, company_id, conversation_id) inner.dirty;
      },
    )
    else (
      ok (still_dirty dirty.max_seq),
      record inner { dirty_leases = leases; consumer_state = consumers },
    )

unfoldable pub ack_dirty :
    (project_id company_id conversation_id : String)
    → DirtyAckRequest
    → Time
    → StoreInner
    → Result Acked × StoreInner
unfolding settle
ack_dirty project_id company_id conversation_id request now inner =
    let key : Key₃ = (project_id, company_id, conversation_id) in
    let lease_key : Key₄ = (project_id, company_id, request.consumer_id, conversation_id) in
    elim (lookup key inner.dirty) [
      | none ↦ (err (not_found "dirty conversation not found"), inner)
      | some dirty ↦ elim (lookup lease_key inner.dirty_leases) [
        | none ↦ (err (conflict "lease_token missing"), inner)
        | some lease ↦
            if not (lease.lease_token == request.lease_token)
            then (err (conflict "lease_token mismatch"), inner)
            else if ltb lease.locked_until now
            then (err (conflict "lease_token expired"), inner)
            else settle key lease_key dirty request.processed_until_seq inner
      ]
    ]
