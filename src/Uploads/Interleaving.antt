-- ===== src/Uploads/Interleaving.antt =====
-- The uploads of many calls, interleaved: a step is one stretch under the lock, of one call, or a
-- change by another operation, which leaves the two maps of the upload keys alone.
use rust_zap.Prelude.{◌≡◌, String, List, ◌∷◌, ◌++◌}
use rust_zap.Error.{Result}
use rust_zap.Models.{MediaObject}
use rust_zap.Store.{StoreInner, Key₃}
use rust_zap.Uploads.{Claim, returned, waits, claimed, try_claim, finish_upload, drop_guard}

-- The calls that are between their claim and their registration, with their keys and hashes.
pub record System : Type 0 where
  pub inner : StoreInner
  pub uploading : List (Key₃ × String)

abbrev pub with_claim : Key₃ → String → Claim → List (Key₃ × String) → List (Key₃ × String)
with_claim key hash claimed uploading = (key, hash) ∷ uploading
with_claim key hash waits uploading = uploading
with_claim key hash (returned r) uploading = uploading

pub data Step : System → System → Type 0 where
  claim :
      (s : StoreInner) (us : List (Key₃ × String)) (key : Key₃) (hash : String)
      → Step
          (record { inner = s; uploading = us })
          (record {
            inner = (try_claim key hash s).1;
            uploading = with_claim key hash (try_claim key hash s).0 us;
          })
  finish :
      (s : StoreInner) (before after : List (Key₃ × String)) (key : Key₃) (hash : String)
      (uploaded : Result MediaObject)
      → Step
          (record { inner = s; uploading = before ++ (key, hash) ∷ after })
          (record { inner = (finish_upload key hash uploaded s).1; uploading = before ++ after })
  cancel :
      (s : StoreInner) (before after : List (Key₃ × String)) (key : Key₃) (hash : String)
      → Step
          (record { inner = s; uploading = before ++ (key, hash) ∷ after })
          (record { inner = drop_guard key hash s; uploading = before ++ after })
  other :
      (s t : StoreInner) (us : List (Key₃ × String))
      → t.media_upload_idempotency ≡ s.media_upload_idempotency
      → t.media_upload_idempotency_inflight ≡ s.media_upload_idempotency_inflight
      → Step (record { inner = s; uploading = us }) (record { inner = t; uploading = us })

pub data Steps : System → System → Type 0 where
  done : {s : System} → Steps s s
  then : {s t u : System} → Steps s t → Step t u → Steps s u
