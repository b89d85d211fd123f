-- ===== src/Channels/Pairing.antt =====
-- src/state.rs: the pairing codes that `qr` shows.
use rust_zap.Prelude.{
  ◌≡◌, refl, String, Bool, false, ◌&&◌, arith, inl, inr, Bool-cases, Option-cases, leb, is_some,
}
use rust_zap.Dict.{string_eq, lookup}
use rust_zap.Models.{Time, QrState}
use rust_zap.Events.{Stamp}
use rust_zap.Store.{StoreInner}
use rust_zap.Channels.{is_connected_in, reconcile_channel_runtime_status, show_qr, qr_of, qr}

module _ (ts : Time → String) (channel_id : String) (now : Time) where
  -- What is shown has a code only before the code expires, and only for a channel that the store
  -- does not have for connected.
  abbrev pub IsGood : QrState → StoreInner → Type 0
  IsGood shown t =
      ((is_some shown.qr_code_text && leb shown.expires_at now) ≡ false)
      × ((is_some shown.qr_code_text && is_connected_in channel_id t) ≡ false)

  show_qr-IsGood :
      (q : QrState) (s : StoreInner)
      → is_connected_in channel_id s ≡ false
      → IsGood (show_qr ts channel_id now q s).0 (show_qr ts channel_id now q s).1
  unfolding show_qr
  show_qr-IsGood q s away = elim (Bool-cases (is_some q.qr_code_text && leb q.expires_at now)) [
    | inl expired ↦ rw (expired, show_qr) (refl, refl)
    | inr good ↦ rw (good, show_qr) (good, ground arith)
  ]

  qr_of-IsGood :
      (later : Time) (s : StoreInner)
      → IsGood (qr_of ts channel_id now later s).0 (qr_of ts channel_id now later s).1
  unfolding qr_of
  qr_of-IsGood later s = elim (Bool-cases (is_connected_in channel_id s)) [
    | inl here ↦ rw (here, qr_of) (refl, refl)
    | inr away ↦ elim (Option-cases (lookup channel_id s.qr)) [
      | inl missing ↦ rw (away, qr_of) (rw missing (refl, refl))
      | inr (q, e) ↦ rw (away, qr_of) (rw e (show_qr-IsGood q s away))
    ]
  ]

  -- A pairing code is shown only before it expires, and only while the store does not have the
  -- channel for connected.
  pub qr-IsGood :
      (connected : Bool) (first later : Time) (stamp : Stamp) (s : StoreInner)
      → let out = qr ts connected channel_id first now later stamp s in IsGood out.0 out.1
  unfolding qr
  qr-IsGood connected first later stamp s =
      qr_of-IsGood later (reconcile_channel_runtime_status ts connected channel_id first stamp s)
