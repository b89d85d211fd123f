-- ===== src/Uploads/Replays.antt =====
-- src/state.rs: the record of an upload key, and the calls that it answers.
use rust_zap.Prelude.{
  ◌≡◌, refl, ◌∙◌, sym, ap, String, false, none, some, List, ◌∷◌, ◌++◌, inl, inr, Bool-cases,
  Option-cases, if◌then◌else◌, is_some_and,
}
use rust_zap.Dict.{◌==◌, string_eq, triple_eq, lookup}
use rust_zap.Dict.Laws.{lookup-insert, lookup-insert_self}
use rust_zap.Error.{Result, ok, err, idempotency_conflict}
use rust_zap.Models.{MediaObject}
use rust_zap.Store.{StoreInner, MediaUploadIdempotencyRecord, Key₃}
use rust_zap.Uploads.{
  returned, try_claim, release, finish_upload, drop_guard, from_record, cached_media,
}
use rust_zap.Uploads.Interleaving.{System, Step, Steps}
use rust_zap.Uploads.Exclusion.{IsExclusive, without-IsExclusive}

abbrev pub RecordOf : Key₃ → MediaUploadIdempotencyRecord → StoreInner → Type 0
RecordOf k r s = lookup k s.media_upload_idempotency ≡ some r

module _ (k : Key₃) (r : MediaUploadIdempotencyRecord) where
  claim-RecordOf :
      (s : StoreInner) (key : Key₃) (hash : String)
      → RecordOf k r s
      → RecordOf k r (try_claim key hash s).1
  unfolding try_claim
  claim-RecordOf s key hash h = elim (Option-cases (lookup key s.media_upload_idempotency)) [
    | inr (other, e) ↦ rw (e, try_claim) h
    | inl fresh ↦ elim (Option-cases (lookup key s.media_upload_idempotency_inflight)) [
      | inl free ↦ rw (fresh, try_claim) (rw free h)
      | inr (held, e) ↦ elim (Bool-cases (held == hash)) [
        | inl same ↦ rw (fresh, try_claim) (rw e (rw same h))
        | inr differs ↦ rw (fresh, try_claim) (rw e (rw differs h))
      ]
    ]
  ]

  finish-RecordOf :
      (s : StoreInner) (key : Key₃) (hash : String) (uploaded : Result MediaObject)
      → RecordOf k r s
      → RecordOf k r (finish_upload key hash uploaded s).1
  unfolding finish_upload release
  finish-RecordOf s key hash (err e) h = h
  finish-RecordOf s key hash (ok media) h =
      elim (Option-cases (lookup key s.media_upload_idempotency)) [
        | inr (other, e) ↦ rw (e, finish_upload) h
        | inl fresh ↦
            let apart : (key == k) ≡ false = elim (Bool-cases (key == k)) [
              | inr differs ↦ differs
              | inl same ↦
                  let e : key ≡ k = (triple_eq.beq_iff key k).0 same in
                  let both : none ≡ some r =
                    sym fresh ∙ ap (λ (x : Key₃). lookup x s.media_upload_idempotency) e ∙ h in
                  absurd (cc both)
            ] in
            rw (fresh, finish_upload)
              (rw
                (lookup-insert key k (record { request_hash = hash; media_id = media.id })
                  s.media_upload_idempotency)
                (rw apart h))
      ]

  Step-RecordOf : {x y : System} → Step x y → RecordOf k r x.inner → RecordOf k r y.inner
  unfolding drop_guard release
  Step-RecordOf (Step.claim s us key hash) h = claim-RecordOf s key hash h
  Step-RecordOf (Step.finish s before after key hash uploaded) h =
      finish-RecordOf s key hash uploaded h
  Step-RecordOf (Step.cancel s before after key hash) h =
      elim (Bool-cases
        (is_some_and (lookup key s.media_upload_idempotency_inflight) (λ a. a == hash))) [
          | inl armed ↦ rw (armed, drop_guard) h
          | inr gone ↦ rw (gone, drop_guard) h
        ]
  Step-RecordOf (Step.other s t us e f) h = rw e h

  -- The record of a key is never changed or taken away, whatever is done to uploads and in whatever
  -- order.
  pub Steps-RecordOf : {x y : System} → RecordOf k r x.inner → Steps x y → RecordOf k r y.inner
  Steps-RecordOf h Steps.done = h
  Steps-RecordOf h (Steps.then steps step) = Step-RecordOf step (Steps-RecordOf h steps)

-- A call that uploads under a claim of its own and succeeds gets its media; and after whatever
-- steps follow, a call under the same key is answered from that media's id at once: with the media
-- that the store has under it if the hash is the same, and with a conflict if it is not.
pub finish_upload_once :
    (s : StoreInner) (before after : List (Key₃ × String)) (key : Key₃) (hash again : String)
    (media : MediaObject) {y : System}
    → IsExclusive (record { inner = s; uploading = before ++ (key, hash) ∷ after })
    → Steps
        (record { inner = (finish_upload key hash (ok media) s).1; uploading = before ++ after })
        y
    → ((finish_upload key hash (ok media) s).0 ≡ ok media)
      × (try_claim key again y.inner ≡ (
        returned (
            if hash == again
            then cached_media media.id (lookup media.id y.inner.media)
            else err (idempotency_conflict "same Idempotency-Key used with different upload body")),
        y.inner,
      ))
unfolding finish_upload release try_claim from_record
finish_upload_once s before after key hash again media {y} x steps =
    let (rest, out, held) = without-IsExclusive s before after (key, hash) x in
    let fresh = held.1 in
    let r : MediaUploadIdempotencyRecord = record { request_hash = hash; media_id = media.id } in
    let registered : RecordOf key r (finish_upload key hash (ok media) s).1 =
      rw (fresh, finish_upload) (lookup-insert_self key r s.media_upload_idempotency) in
    let still : RecordOf key r y.inner = Steps-RecordOf key r registered steps in
    (rw (fresh, finish_upload) refl, rw (still, try_claim) refl)
