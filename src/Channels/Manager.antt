-- ===== src/Channels/Manager.antt =====
-- src/whatsapp.rs: what `WhatsappManager` keeps of a channel: whether it is to be connected, and how
-- often a reconnect was tried. A supervisor is whether its task runs and its client is connected.
use rust_zap.Prelude.{
  ℕ, ◌+◌, ◌*◌, ◌^◌, min, String, Bool, true, false, ◌&&◌, none, some, is_some_and, unwrap_or,
  if◌then◌else◌,
}
use rust_zap.Dict.{Dict, string_eq, lookup, insert, remove}

pub record ReconnectIntent : Type 0 where
  pub desired : Bool
  pub needs_session_reset : Bool
  pub has_connected : Bool
  pub attempts : ℕ

pub record ChannelSupervisor : Type 0 where
  pub is_running : Bool
  pub is_connected : Bool

pub record WhatsappManager : Type 0 where
  pub supervisors : Dict String ChannelSupervisor
  pub intents : Dict String ReconnectIntent

-- `entry(channel_id).or_default()`
abbrev pub intent_of : String → WhatsappManager → ReconnectIntent
intent_of channel_id manager =
    unwrap_or (lookup channel_id manager.intents)
      (record { desired = false; needs_session_reset = false; has_connected = false; attempts = 0 })

abbrev pub set_intent : String → ReconnectIntent → WhatsappManager → WhatsappManager
set_intent channel_id intent manager = record manager {
  intents = insert channel_id intent manager.intents;
}

unfoldable pub set_desired : String → Bool → WhatsappManager → WhatsappManager
set_desired channel_id desired manager =
    set_intent channel_id (record (intent_of channel_id manager) { desired = desired }) manager

abbrev pub is_desired : String → WhatsappManager → Bool
is_desired channel_id manager =
    is_some_and (lookup channel_id manager.intents) (λ intent. intent.desired)

unfoldable pub mark_needs_session_reset : String → WhatsappManager → WhatsappManager
mark_needs_session_reset channel_id manager =
    set_intent channel_id
      (record (intent_of channel_id manager) {
        needs_session_reset = true;
        has_connected = false;
        attempts = 0;
      })
      manager

unfoldable pub take_needs_session_reset : String → WhatsappManager → Bool × WhatsappManager
take_needs_session_reset channel_id manager = elim (lookup channel_id manager.intents) [
  | none ↦ (false, manager)
  | some intent ↦
      if intent.needs_session_reset
      then (true, set_intent channel_id (record intent { needs_session_reset = false }) manager)
      else (false, manager)
]

-- 5 seconds, doubled for each try and at most 300.
unfoldable pub next_reconnect_delay_secs : String → WhatsappManager → ℕ × WhatsappManager
next_reconnect_delay_secs channel_id manager =
    let intent = intent_of channel_id manager in
    (
      min (5 * 2 ^ min intent.attempts 16) 300,
      set_intent channel_id (record intent { attempts = min (intent.attempts + 1) 4294967295 })
          manager,
    )

unfoldable pub mark_connected : String → WhatsappManager → WhatsappManager
mark_connected channel_id manager =
    set_intent channel_id
      (record (intent_of channel_id manager) { has_connected = true; attempts = 0 }) manager

abbrev pub should_reconnect : String → WhatsappManager → Bool
should_reconnect channel_id manager =
    is_some_and (lookup channel_id manager.intents)
      (λ intent. intent.desired && intent.has_connected)

abbrev pub is_channel_active : String → WhatsappManager → Bool
is_channel_active channel_id manager =
    is_some_and (lookup channel_id manager.supervisors) (λ supervisor. supervisor.is_running)

abbrev pub is_channel_connected : String → WhatsappManager → Bool
is_channel_connected channel_id manager =
    is_some_and (lookup channel_id manager.supervisors)
      (λ supervisor. supervisor.is_running && supervisor.is_connected)

unfoldable pub stop_channel : String → WhatsappManager → WhatsappManager
stop_channel channel_id manager = record manager {
  supervisors = remove channel_id manager.supervisors;
}
