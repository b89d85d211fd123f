-- ===== src/Uploads.antt =====
-- src/state.rs: `upload_outbound_media_idempotent`, in the three stretches that hold the store's lock
-- and between which other calls run: the claim of a key, the registration of what was uploaded, and
-- the drop of the guard of a call that is cancelled. A call that has to wait tries the claim again.
pub mod Interleaving
pub mod Exclusion
pub mod Replays
use rust_zap.Prelude.{
  String, ◌<>◌, Bool, true, false, Option, none, some, List, [], ◌∷◌, ◌++◌, if◌then◌else◌,
  is_some_and,
}
use rust_zap.Dict.{◌==◌, string_eq, triple_eq, lookup, insert, remove}
use rust_zap.Error.{Result, ok, err, internal, idempotency_conflict}
use rust_zap.Models.{MediaObject}
use rust_zap.Store.{StoreInner, MediaUploadIdempotencyRecord, Key₃}

-- What a try to claim a key comes to.
pub data Claim : Type 0 where
  returned : Result MediaObject → Claim
  waits : Claim
  claimed : Claim

unfoldable pub cached_media : String → Option MediaObject → Result MediaObject
cached_media media_id none =
    err (internal ("cached idempotency media " <> (media_id <> " missing")))
cached_media media_id (some media) = ok media

-- The answer from the record of a key.
unfoldable pub from_record : String → MediaUploadIdempotencyRecord → StoreInner → Result MediaObject
from_record request_hash idempotent inner =
    if idempotent.request_hash == request_hash
    then cached_media idempotent.media_id (lookup idempotent.media_id inner.media)
    else err (idempotency_conflict "same Idempotency-Key used with different upload body")

unfoldable pub try_claim : Key₃ → String → StoreInner → Claim × StoreInner
try_claim idem_key request_hash inner = elim (lookup idem_key inner.media_upload_idempotency) [
  | some idempotent ↦ (returned (from_record request_hash idempotent inner), inner)
  | none ↦ elim (lookup idem_key inner.media_upload_idempotency_inflight) [
    | some inflight_hash ↦ if inflight_hash == request_hash then (waits, inner) else (
      returned (err (idempotency_conflict "same Idempotency-Key used with different upload body")),
      inner,
    )
    | none ↦ (
      claimed,
      record inner {
        media_upload_idempotency_inflight =
            insert idem_key request_hash inner.media_upload_idempotency_inflight;
      },
    )
  ]
]

unfoldable pub release : Key₃ → StoreInner → StoreInner
release idem_key inner = record inner {
  media_upload_idempotency_inflight = remove idem_key inner.media_upload_idempotency_inflight;
}

-- What happens after the upload.
unfoldable pub finish_upload :
    Key₃ → String → Result MediaObject → StoreInner → Result MediaObject × StoreInner
finish_upload idem_key request_hash (err e) inner = (err e, release idem_key inner)
finish_upload idem_key request_hash (ok media) inner =
    elim (lookup idem_key inner.media_upload_idempotency) [
      | some idempotent ↦ (from_record request_hash idempotent inner, release idem_key inner)
      | none ↦ (
        ok media,
        release idem_key (record inner {
          media_upload_idempotency =
              insert idem_key (record { request_hash = request_hash; media_id = media.id })
                inner.media_upload_idempotency;
        }),
      )
    ]

-- `MediaUploadInflightGuard::drop` of a guard that is armed.
unfoldable pub drop_guard : Key₃ → String → StoreInner → StoreInner
drop_guard key request_hash inner =
    if is_some_and (lookup key inner.media_upload_idempotency_inflight)
      (λ hash. hash == request_hash)
    then release key inner
    else inner
