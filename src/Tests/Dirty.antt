-- ===== src/Tests/Dirty.antt =====
-- The theorems on dirty conversations at concrete states.
use rust_zap.Prelude.{◌≡◌, refl, ◌≤◌, max, true, arith, length, any, All}
use rust_zap.Prelude.Int.{pos}
use rust_zap.Dict.{lookup, insert, modify_or_insert, remove}
use rust_zap.Error.{ApiError, err}
use rust_zap.Models.{DirtyAckRequest}
use rust_zap.Store.{StoreInner}
use rust_zap.Dirty.{mark_dirty_inner, list_dirty, ack_dirty, clean}
use rust_zap.Dirty.NoLoss.{Owes, Steps, Step}
use rust_zap.Dirty.Acks.{Replies, ack_dirty-Replies, ack_dirty_once}
use rust_zap.Dirty.Leases.{list_dirty_lem, IsDue, IsSorted}
use rust_zap.Dirty.Listed.{list_dirty_owed, is_about}
use rust_zap.Tests.Fixtures.{token, leased, stamp}

owed : Owes "p" "c" "v" "worker" (pos 2) leased
unfolding mark_dirty_inner list_dirty lookup insert modify_or_insert
owed = record {
  mark = _;
  marked = refl;
  covers = omega arith;
  seen = pos 0;
  registered = refl;
  behind = omega arith;
}

-- Another message, and an ack by the consumer that stops short of it.
abbrev short_ack : DirtyAckRequest
short_ack = record { consumer_id = "worker"; processed_until_seq = pos 1; lease_token = "lease_1" }

abbrev later : StoreInner
later =
    (ack_dirty "p" "c" "v" short_ack 7
      (mark_dirty_inner "p" "c" "v" (pos 4) "channel" 6 stamp leased)).1

steps : Steps "p" "c" "v" "worker" (pos 2) leased later
steps =
    Steps.then (Steps.then Steps.done (Step.mark leased "p" "c" "v" (pos 4) "channel" 6 stamp)) (
      Step.ack (mark_dirty_inner "p" "c" "v" (pos 4) "channel" 6 stamp leased) "p" "c" "v" short_ack
        7 (λ _. omega arith))

list_dirty_owed_example :
    any (is_about "v" (pos 2)) (list_dirty "p" "c" "worker" 5 8 token later).1 ≡ true
unfolding mark_dirty_inner list_dirty ack_dirty lookup insert modify_or_insert
list_dirty_owed_example =
    list_dirty_owed "p" "c" "v" "worker" (pos 2) 5 8 token leased later owed steps (refl, tt)
      (omega arith)

abbrev full_ack : DirtyAckRequest
full_ack = record { consumer_id = "worker"; processed_until_seq = pos 3; lease_token = "lease_1" }

ack_dirty-Replies_example :
    Replies "p" "c" "v" full_ack leased (ack_dirty "p" "c" "v" full_ack 9 leased)
ack_dirty-Replies_example = ack_dirty-Replies "p" "c" "v" full_ack 9 leased

ack_dirty_once_example :
    let s = (ack_dirty "p" "c" "v" full_ack 9 leased).1 in
    (e : ApiError) × (ack_dirty "p" "c" "v" full_ack 10 s ≡ (err e, s))
unfolding mark_dirty_inner list_dirty ack_dirty lookup insert modify_or_insert remove
ack_dirty_once_example =
    ack_dirty_once "p" "c" "v" full_ack "lease_1" (pos 3) 9 10 leased {a = clean} refl

list_dirty_lem_example :
    let items = (list_dirty "p" "c" "worker" 5 8 token leased).1 in
    All (IsDue "p" "c" "worker" leased.consumer_state 8 leased.dirty) items
    × (length items ≤ max 1 5)
    × IsSorted items
unfolding mark_dirty_inner list_dirty modify_or_insert
list_dirty_lem_example = list_dirty_lem "p" "c" "worker" 5 8 token leased (refl, tt)
