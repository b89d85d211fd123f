-- ===== src/Channels/Accounts.antt =====
-- src/state.rs: making, finding, connecting and disconnecting a channel. `ts` is the RFC 3339 text
-- of a time. The start of a session is the provider's: `started` is the manager after it, and its
-- failure.
use rust_zap.Prelude.{
  ◌+◌, String, ◌<>◌, Bool, true, false, ◌&&◌, ◌||◌, Option, none, some, [], ◌∷◌, ltb, not, is_some,
  is_some_and, keep_if, unwrap_or, if◌then◌else◌,
}
use rust_zap.Dict.{string_eq, lookup, insert}
use rust_zap.Json.{Value, null, str, set, object, of_option}
use rust_zap.Error.{Result, ok, err, conflict, not_found, internal}
use rust_zap.Models.{Time, seconds, QrState}
use rust_zap.Events.{Stamp, new_event}
use rust_zap.Store.{StoreInner, push_event_inner}
use rust_zap.Persisted.Saved.{channel_belongs_to_company}
use rust_zap.Channels.{
  is_status, is_connected_in, without_code, disconnected, reconcile_channel_runtime_status,
  set_channel_status, set_qr,
}
use rust_zap.Channels.Manager.{
  WhatsappManager, is_channel_connected, mark_connected, stop_channel, take_needs_session_reset,
  set_desired,
}

abbrev set_given : String → Option String → Value → Value
set_given key none channel = channel
set_given key (some value) channel = set key (str value) channel

-- What a call that asks for a channel's state draws.
pub record ReconcileDraws : Type 0 where
  pub now : Time
  pub stamp : Stamp

module _ (ts : Time → String) where
  -- `found` is what stands under the id.
  abbrev create_over :
      (project_id company_id channel_id : String)
      → (label phone_e164 : Option String) → Time
      → Option Value
      → Result Value
  create_over project_id company_id channel_id label phone_e164 now (some existing) =
      if channel_belongs_to_company existing project_id company_id
      then ok (
          set "updated_at" (str (ts now)) (
            set_given "phone_e164" phone_e164 (
              set_given "label" label
                (set "company_id" (str company_id) (set "project_id" (str project_id) existing)))))
      else err (conflict ("channel " <> (channel_id <> " already exists for another company")))
  create_over project_id company_id channel_id label phone_e164 now none = ok (
      object (
        ("id", str channel_id)
        ∷ ("project_id", str project_id)
        ∷ ("company_id", str company_id)
        ∷ ("provider", str "whatsapp-rust")
        ∷ ("phone_e164", of_option phone_e164)
        ∷ ("label", str (unwrap_or label "WhatsApp Dev"))
        ∷ ("status", str "disconnected")
        ∷ ("connected_at", null)
        ∷ ("created_at", str (ts now))
        ∷ ("updated_at", str (ts now))
        ∷ []))

  -- `nonce` is what a new id draws.
  unfoldable pub create_channel :
      (project_id company_id : String)
      → (id label phone_e164 : Option String) → (nonce : String) → Time
      → StoreInner
      → Result Value × StoreInner
  unfolding create_over set_given
  create_channel project_id company_id id label phone_e164 nonce now inner =
      let channel_id = unwrap_or id ("channel_" <> nonce) in
      elim (create_over project_id company_id channel_id label phone_e164 now
        (lookup channel_id inner.channels)) [
          | err failure ↦ (err failure, inner)
          | ok channel ↦
              (ok channel, record inner { channels = insert channel_id channel inner.channels })
        ]

  abbrev pub bare_channel : String → Value
  bare_channel channel_id = object (("id", str channel_id) ∷ ("status", str "disconnected") ∷ [])

  abbrev reconciled : WhatsappManager → String → ReconcileDraws → StoreInner → StoreInner
  reconciled manager channel_id draws inner =
      reconcile_channel_runtime_status ts (is_channel_connected channel_id manager) channel_id
        draws.now draws.stamp inner

  unfoldable pub channel :
      WhatsappManager → String → ReconcileDraws → StoreInner → Value × StoreInner
  unfolding reconciled
  channel manager channel_id draws inner =
      let after = reconciled manager channel_id draws inner in
      (unwrap_or (lookup channel_id after.channels) (bare_channel channel_id), after)

  abbrev owned_channel : (project_id company_id channel_id : String) → Option Value → Result Value
  owned_channel project_id company_id channel_id none =
      err (not_found ("channel " <> (channel_id <> " not found")))
  owned_channel project_id company_id channel_id (some found) =
      if channel_belongs_to_company found project_id company_id
      then ok found
      else err (not_found ("channel " <> (channel_id <> " not found")))

  unfoldable pub channel_for_company :
      WhatsappManager
      → (project_id company_id channel_id : String) → ReconcileDraws
      → StoreInner
      → Result Value × StoreInner
  unfolding reconciled owned_channel
  channel_for_company manager project_id company_id channel_id draws inner =
      let after = reconciled manager channel_id draws inner in
      (owned_channel project_id company_id channel_id (lookup channel_id after.channels), after)

  unfoldable pub disconnect_channel :
      String → Time → WhatsappManager × StoreInner → Value × WhatsappManager × StoreInner
  disconnect_channel channel_id now (manager, inner) =
      let stopped = stop_channel channel_id (set_desired channel_id false manager) in
      elim (lookup channel_id inner.channels) [
        | none ↦ (bare_channel channel_id, stopped, inner)
        | some found ↦
            let left = disconnected ts now found in
            (left, stopped, record inner { channels = insert channel_id left inner.channels })
      ]

  unfoldable pub disconnect_channel_for_company :
      (project_id company_id channel_id : String)
      → ReconcileDraws
      → Time
      → WhatsappManager × StoreInner
      → Result Value × WhatsappManager × StoreInner
  disconnect_channel_for_company project_id company_id channel_id draws now (manager, inner) =
      let (found, after) =
        channel_for_company manager project_id company_id channel_id draws inner in
      elim found [
        | err failure ↦ (err failure, manager, after)
        | ok value ↦
            let (left, stopped, cleared) = disconnect_channel channel_id now (manager, after) in
            (ok left, stopped, cleared)
      ]

  -- A code that can still be shown, and one that has had its time.
  abbrev is_active : Time → QrState → Bool
  is_active now qr = is_some qr.qr_code_text && ltb (now + seconds 2) qr.expires_at

  abbrev is_stale : Time → QrState → Bool
  is_stale now qr = is_some qr.qr_code_text && not (ltb (now + seconds 2) qr.expires_at)

  -- What a connection draws.
  pub record ConnectDraws : Type 0 where
    pub reconcile : ReconcileDraws
    pub reply_at : Time
    pub now : Time
    pub reset_stamp : Stamp
    pub qr_at : Time
    pub status_at : Time

  -- Dead credentials are wiped, with the session's files.
  abbrev reset_session :
      (project_id company_id channel_id : String)
      → Stamp
      → WhatsappManager × StoreInner
      → WhatsappManager × StoreInner
  reset_session project_id company_id channel_id stamp (manager, inner) =
      let logged_out = is_some_and (lookup channel_id inner.channels) (is_status "logged_out") in
      let (needed, taken) = take_needs_session_reset channel_id manager in
      if needed || logged_out
      then (
        stop_channel channel_id taken,
        push_event_inner
            (new_event "channel.session_reset" project_id company_id (some channel_id) none none
              none (object (("reason", str "logged_out_credentials_wiped") ∷ [])) stamp)
            inner,
      )
      else (taken, inner)

  -- The connection of a channel that has no code to show.
  abbrev start_session :
      (project_id company_id channel_id : String)
      → (start_channel : WhatsappManager → Option String × WhatsappManager) → ConnectDraws
      → WhatsappManager × StoreInner
      → Result QrState × WhatsappManager × StoreInner
  unfolding reset_session
  start_session project_id company_id channel_id start_channel draws state =
      let (manager, inner) =
        reset_session project_id company_id channel_id draws.reset_stamp state in
      let (qr, with_qr) = set_qr ts channel_id "connecting" none draws.qr_at inner in
      let (value, after) =
        set_channel_status ts channel_id "connecting" none draws.status_at with_qr in
      let (failure, started) = start_channel (set_desired channel_id true manager) in
      elim failure [
        | some error ↦ (err (internal ("failed to start WhatsApp: " <> error)), started, after)
        | none ↦ (ok qr, started, after)
      ]

  abbrev connect_found :
      (project_id company_id channel_id : String)
      → (start_channel : WhatsappManager → Option String × WhatsappManager) → ConnectDraws
      → WhatsappManager × StoreInner
      → Result QrState × WhatsappManager × StoreInner
  unfolding start_session is_active is_stale
  connect_found project_id company_id channel_id start_channel draws (manager, inner) =
      let stored_connected = is_connected_in channel_id inner in
      if stored_connected && is_channel_connected channel_id manager
      then (ok (without_code channel_id "connected" draws.reply_at), manager, inner)
      else let marked = if stored_connected then mark_connected channel_id manager else manager in
        let cached_qr = lookup channel_id inner.qr in
        elim (keep_if (is_active draws.now) cached_qr) [
          | some qr ↦ (ok qr, marked, inner)
          | none ↦ start_session project_id company_id channel_id start_channel draws (
            if is_some_and cached_qr (is_stale draws.now)
                then stop_channel channel_id marked
                else marked,
            inner,
          )
        ]

  unfoldable pub connect_channel :
      (project_id company_id channel_id : String)
      → (start_channel : WhatsappManager → Option String × WhatsappManager) → ConnectDraws
      → WhatsappManager × StoreInner
      → Result QrState × WhatsappManager × StoreInner
  unfolding connect_found
  connect_channel project_id company_id channel_id start_channel draws (manager, inner) =
      let (found, after) =
        channel_for_company manager project_id company_id channel_id draws.reconcile inner in
      elim found [
        | err failure ↦ (err failure, manager, after)
        | ok value ↦
            connect_found project_id company_id channel_id start_channel draws (manager, after)
      ]
