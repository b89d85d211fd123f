-- ===== src/Tests/Uploads.antt =====
-- The theorems on uploads at concrete interleavings.
use rust_zap.Prelude.{◌≡◌, refl, subst, String, List, [], ◌∷◌, if◌then◌else◌}
use rust_zap.Dict.{◌==◌, string_eq, triple_eq, lookup, insert}
use rust_zap.Error.{ok, err, idempotency_conflict}
use rust_zap.Store.{MediaUploadIdempotencyRecord, Key₃, empty}
use rust_zap.Uploads.{returned, try_claim, finish_upload, cached_media}
use rust_zap.Uploads.Interleaving.{System, Step, Steps, with_claim}
use rust_zap.Uploads.Exclusion.{IsExclusive, Steps-IsExclusive}
use rust_zap.Uploads.Replays.{RecordOf, Steps-RecordOf, finish_upload_once}
use rust_zap.Tests.Fixtures.{image}

abbrev key : Key₃
key = ("p", "c", "key")

abbrev idle : System
idle = record { inner = empty; uploading = [] }

-- A first call that claims the key, and a second that has to wait.
abbrev first : System
first = record {
  inner = (try_claim key "hash" empty).1;
  uploading = with_claim key "hash" (try_claim key "hash" empty).0 [];
}

abbrev second : System
second = record {
  inner = (try_claim key "hash" first.inner).1;
  uploading = with_claim key "hash" (try_claim key "hash" first.inner).0 first.uploading;
}

two_claims : Steps idle second
two_claims =
    Steps.then (Steps.then Steps.done (Step.claim empty [] key "hash"))
      (Step.claim first.inner first.uploading key "hash")

Steps-IsExclusive_example : IsExclusive second
Steps-IsExclusive_example = Steps-IsExclusive {x = idle} {y = second} (tt, tt) two_claims

claims : second.uploading ≡ (key, "hash") ∷ []
unfolding try_claim lookup insert
claims = refl

abbrev finished : System
finished = record { inner = (finish_upload key "hash" (ok image) second.inner).1; uploading = [] }

exclusive : IsExclusive (record { inner = second.inner; uploading = (key, "hash") ∷ [] })
exclusive =
    subst
      (λ (us : List (Key₃ × String)). IsExclusive (record { inner = second.inner; uploading = us }))
      claims Steps-IsExclusive_example

finish_upload_once_example :
    ((finish_upload key "hash" (ok image) second.inner).0 ≡ ok image)
    × (try_claim key "hash" finished.inner ≡ (
      returned (
          if ◌==◌ {K = String} "hash" "hash"
          then cached_media image.id (lookup image.id finished.inner.media)
          else err (idempotency_conflict "same Idempotency-Key used with different upload body")),
      finished.inner,
    ))
finish_upload_once_example =
    finish_upload_once second.inner [] [] key "hash" "hash" image {y = finished} exclusive
      Steps.done

abbrev known : MediaUploadIdempotencyRecord
known = record { request_hash = "hash"; media_id = "media_1" }

abbrev registered : System
registered = record {
  inner = record empty { media_upload_idempotency = (key, known) ∷ [] };
  uploading = [];
}

known_first : RecordOf key known registered.inner
unfolding lookup
known_first = refl

abbrev asked : System
asked = record {
  inner = (try_claim key "other" registered.inner).1;
  uploading = with_claim key "other" (try_claim key "other" registered.inner).0 [];
}

Steps-RecordOf_example : RecordOf key known asked.inner
Steps-RecordOf_example =
    Steps-RecordOf key known {x = registered} {y = asked} known_first
      (Steps.then Steps.done (Step.claim registered.inner [] key "other"))
