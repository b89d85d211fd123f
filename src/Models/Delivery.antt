-- ===== src/Models/Delivery.antt =====
-- src/models.rs: `DeliveryState`, what the API shows of a message's status.
use rust_zap.Prelude.{String, ◌||◌, not, if◌then◌else◌}
use rust_zap.Dict.{◌==◌, string_eq}
use rust_zap.Models.{Message}

pub data DeliveryState : Type 0 where
  not_applicable pending sent delivered read failed : DeliveryState

unfoldable pub for_message : String → String → String → DeliveryState
for_message direction message_type status =
    if not (direction == "outbound" || direction == "out") || message_type == "system"
    then not_applicable
    else if status == "queued"
    then pending
    else if status == "sent_to_whatsapp" || status == "server_ack"
    then sent
    else if status == "delivered"
    then delivered
    else if status == "read" || status == "played"
    then read
    else if status == "failed"
    then failed
    else not_applicable

abbrev pub delivery_state : Message → DeliveryState
delivery_state m = for_message m.direction m.message_type m.status

-- How serde writes the enum.
unfoldable pub delivery_state_text : DeliveryState → String
delivery_state_text not_applicable = "not_applicable"
delivery_state_text pending = "pending"
delivery_state_text sent = "sent"
delivery_state_text delivered = "delivered"
delivery_state_text read = "read"
delivery_state_text failed = "failed"
