-- ===== src/Events.antt =====
-- src/eventbus.rs: how an event is made. `new_event` draws three identifiers and reads the clock;
-- what one call draws is a `Stamp`, an argument of the functions that make events.
use rust_zap.Prelude.{String, Option, none, some, [], ◌∷◌}
use rust_zap.Prelude.Int.{ℤ, pos, negsuc}
use rust_zap.Json.{Value, str, pos_int, neg_int, object}
use rust_zap.Models.{Time, CommonEvent}
use Prim.Native.Nat.{suc}

pub record Stamp : Type 0 where
  pub event_id : String
  pub trace_id : String
  pub correlation_id : String
  pub now : Time

-- `json!` of an `i64`.
abbrev pub of_i64 : ℤ → Value
of_i64 (pos n) = pos_int n
of_i64 (negsuc n) = neg_int (suc n)

unfoldable pub new_event :
    (event_type project_id company_id : String)
    → (channel_id conversation_id message_id : Option String) → Option ℤ
    → Value
    → Stamp
    → CommonEvent
new_event event_type project_id company_id channel_id conversation_id message_id seq payload stamp =
    record {
      event_id = stamp.event_id;
      event_type = event_type;
      project_id = project_id;
      company_id = company_id;
      channel_id = channel_id;
      conversation_id = conversation_id;
      message_id = message_id;
      conversation_seq = seq;
      trace_id = stamp.trace_id;
      causation_id = none;
      correlation_id = stamp.correlation_id;
      occurred_at = stamp.now;
      produced_at = stamp.now;
      payload = payload;
    }

unfoldable pub dirty_signal :
    (project_id company_id channel_id conversation_id : String)
    → ℤ
    → (reason : String) → ℤ
    → Stamp
    → CommonEvent
unfolding new_event
dirty_signal project_id company_id channel_id conversation_id to_seq reason priority =
    new_event "conversation.dirty" project_id company_id (some channel_id) (some conversation_id)
      none (some to_seq)
      (object
        (("to_seq", of_i64 to_seq) ∷ ("reason", str reason) ∷ ("priority", of_i64 priority) ∷ []))
