-- ===== src/Channels.antt =====
-- src/state.rs: the status of a channel and its pairing code. `ts` is the RFC 3339 text of a time.
pub mod Pairing
pub mod Manager
pub mod Accounts
use rust_zap.Prelude.{
  ℕ, ◌+◌, String, ◌<>◌, Bool, true, false, ◌&&◌, ◌||◌, Option, none, some, List, [], ◌∷◌,
  if◌then◌else◌, not, leb, is_some, is_some_and, unwrap_or, and_then,
}
use rust_zap.Dict.{Dict, ◌==◌, string_eq, lookup, insert}
use rust_zap.Json.{Value, str, null, get_str, set, object}
use rust_zap.Error.{Result, ok, err, not_found, ◌>>=◌}
use rust_zap.Models.{Time, seconds, QrState}
use rust_zap.Events.{Stamp, new_event}
use rust_zap.Store.{StoreInner, push_event_inner}

abbrev pub is_status : String → Value → Bool
is_status status channel = is_some_and (get_str "status" channel) (λ s. s == status)

-- Whether the store has a channel for connected.
abbrev pub is_connected_in : String → StoreInner → Bool
is_connected_in channel_id inner =
    is_some_and (lookup channel_id inner.channels) (is_status "connected")

abbrev pub without_code : String → String → Time → QrState
without_code channel_id status now = record {
  channel_id = channel_id;
  status = status;
  qr_code_text = none;
  expires_at = now;
}

module _ (ts : Time → String) where
  -- The three writes to a channel that has gone.
  unfoldable pub disconnected : Time → Value → Value
  disconnected now channel =
      set "updated_at" (str (ts now))
        (set "connected_at" null (set "status" (str "disconnected") channel))

  -- `connected` is what the provider says of the channel.
  unfoldable pub reconcile_channel_runtime_status :
      (connected : Bool) → String → Time → Stamp → StoreInner → StoreInner
  reconcile_channel_runtime_status connected channel_id now stamp inner =
      if connected then inner else elim (lookup channel_id inner.channels) [
        | none ↦ inner
        | some channel ↦
            if is_status "connected" channel
            then push_event_inner
                (new_event "channel.disconnected"
                  (unwrap_or (get_str "project_id" channel) "unknown")
                  (unwrap_or (get_str "company_id" channel) "unknown") (some channel_id) none none
                  none (object []) stamp)
                (record inner {
                  channels = insert channel_id (disconnected now channel) inner.channels;
                  qr = insert channel_id (without_code channel_id "disconnected" now) inner.qr;
                })
            else inner
      ]

  abbrev pub new_channel : String → Time → Value
  new_channel channel_id now = object (
      ("id", str channel_id)
      ∷ ("project_id", str "unknown")
      ∷ ("company_id", str "unknown")
      ∷ ("provider", str "whatsapp-rust")
      ∷ ("label", str "WhatsApp")
      ∷ ("status", str "disconnected")
      ∷ ("connected_at", null)
      ∷ ("created_at", str (ts now))
      ∷ ("updated_at", str (ts now))
      ∷ [])

  abbrev pub set_connected_at : String → Option Time → Value → Value
  set_connected_at status (some connected_at) channel =
      set "connected_at" (str (ts connected_at)) channel
  set_connected_at status none channel =
      if status == "connected" then channel else set "connected_at" null channel

  unfoldable pub set_channel_status :
      String → String → Option Time → Time → StoreInner → Value × StoreInner
  set_channel_status channel_id status connected_at now inner =
      let channel = unwrap_or (lookup channel_id inner.channels) (new_channel channel_id now) in
      let updated =
        set_connected_at status connected_at
          (set "updated_at" (str (ts now)) (set "status" (str status) channel)) in
      (updated, record inner { channels = insert channel_id updated inner.channels })

  unfoldable pub set_qr : String → String → Option String → Time → StoreInner → QrState × StoreInner
  set_qr channel_id status qr_code_text expires_at inner =
      let qr : QrState = record {
        channel_id = channel_id;
        status = status;
        qr_code_text = qr_code_text;
        expires_at = expires_at;
      } in
      (qr, record inner { qr = insert channel_id qr inner.qr })

  -- `nonce` is what the code draws.
  unfoldable pub rotate_qr : String → String → String → Time → StoreInner → QrState × StoreInner
  rotate_qr channel_id status nonce now =
      set_qr channel_id status (some ("rustzap-dev-qr-" <> (channel_id <> ("-" <> nonce))))
        (now + seconds 20)

  abbrev pub expire_channel : Time → Value → Value
  expire_channel now channel =
      if is_status "connecting" channel || is_status "waiting_qr" channel
      then disconnected now channel
      else channel

  abbrev pub expire_channel_in :
      String → Time → Option Value → Dict String Value → Dict String Value
  expire_channel_in channel_id now none channels = channels
  expire_channel_in channel_id now (some channel) channels =
      insert channel_id (expire_channel now channel) channels

  -- A code that has expired is taken away, and its channel with it.
  unfoldable pub show_qr : String → Time → QrState → StoreInner → QrState × StoreInner
  show_qr channel_id now qr inner =
      if is_some qr.qr_code_text && leb qr.expires_at now
      then (
        without_code channel_id "disconnected" now,
        record inner {
          qr = insert channel_id (without_code channel_id "disconnected" now) inner.qr;
          channels =
              expire_channel_in channel_id now (lookup channel_id inner.channels) inner.channels;
        },
      )
      else (qr, inner)

  unfoldable pub qr_of : String → (now later : Time) → StoreInner → QrState × StoreInner
  qr_of channel_id now later inner =
      if is_connected_in channel_id inner
      then (without_code channel_id "connected" later, inner)
      else elim (lookup channel_id inner.qr) [
        | none ↦ (without_code channel_id "disconnected" later, inner)
        | some qr ↦ show_qr channel_id now qr inner
      ]

  -- The clock is read up to three times: for a channel that has gone, for the code, for the reply.
  unfoldable pub qr :
      (connected : Bool)
      → String
      → (first now later : Time) → Stamp
      → StoreInner
      → QrState × StoreInner
  qr connected channel_id first now later stamp inner =
      qr_of channel_id now later
        (reconcile_channel_runtime_status connected channel_id first stamp inner)
