-- ===== src/Conversations/Resolve.antt =====
-- src/state.rs: where a conversation that `conversation_for_inner` gives stands in the store.
use rust_zap.Prelude.{String, ◌≡◌, Option, none, some, arith}
use text.Mathlib.TextEquality.{eq_iff}
use rust_zap.Dict.{lookup, string_eq}
use rust_zap.Error.{ok}
use rust_zap.Models.{Conversation}
use rust_zap.Store.{StoreInner}
use rust_zap.Conversations.{conversation_for_inner, resolve_conversation_id_inner, only_owned}

pub only_owned-ok :
    (p c : String) (o : Option Conversation) {v : Conversation}
    → only_owned p c o ≡ ok v
    → (v.project_id ≡ p) × (v.company_id ≡ c) × (o ≡ some v)
unfolding only_owned
only_owned-ok p c none h = cc
only_owned-ok p c (some w) h = ground (arith, eq_iff w.project_id p, eq_iff w.company_id c)

-- What a company is given is stored under the resolved id and is the company's own.
pub conversation_for_inner_owned :
    (s : StoreInner) (p c asked : String) {v : Conversation}
    → conversation_for_inner s p c asked ≡ ok v
    → (v.project_id ≡ p)
      × (v.company_id ≡ c)
      × (lookup (resolve_conversation_id_inner s p c asked) s.conversations ≡ some v)
unfolding conversation_for_inner
conversation_for_inner_owned s p c asked h =
    only_owned-ok p c (lookup (resolve_conversation_id_inner s p c asked) s.conversations) h
