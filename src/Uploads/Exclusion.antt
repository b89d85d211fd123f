-- ===== src/Uploads/Exclusion.antt =====
-- src/state.rs: the calls that upload under one key at a time.
use rust_zap.Prelude.{
  ◌≡◌, refl, ◌∙◌, sym, ap, String, false, none, some, List, [], ◌∷◌, ◌++◌, inl, inr, Bool-cases,
  Option-cases, map, All, is_some_and,
}
use rust_zap.Dict.{Dict, ◌==◌, string_eq, triple_eq, lookup, insert, remove}
use rust_zap.Dict.Laws.{lookup-insert, lookup-insert_self, lookup-remove}
use rust_zap.Dict.Distinct.{is_in, Distinct, beq_sym, is_in-cons, cons-is_in}
use rust_zap.Error.{Result, ok, err}
use rust_zap.Models.{MediaObject}
use rust_zap.Store.{StoreInner, MediaUploadIdempotencyRecord, Key₃}
use rust_zap.Uploads.{try_claim, release, finish_upload, drop_guard}
use rust_zap.Uploads.Interleaving.{System, Step, Steps, with_claim}

-- A call that uploads has its hash in the map of uploads in flight, and its key has no record.
abbrev pub Held : Dict Key₃ String → Dict Key₃ MediaUploadIdempotencyRecord → Key₃ × String → Type 0
Held inflight records u = (lookup u.0 inflight ≡ some u.1) × (lookup u.0 records ≡ none)

abbrev pub keys_of : List (Key₃ × String) → List Key₃
keys_of us = map (λ (u : Key₃ × String). u.0) us

-- The calls that upload have keys of their own, and each holds its key.
abbrev pub IsExclusive : System → Type 0
IsExclusive x =
    Distinct (keys_of x.uploading)
    × All (Held x.inner.media_upload_idempotency_inflight x.inner.media_upload_idempotency)
        x.uploading

module _ (key : Key₃) (inflight : Dict Key₃ String)
    (records : Dict Key₃ MediaUploadIdempotencyRecord) where
  claimed-Held :
      (hash : String) (us : List (Key₃ × String))
      → lookup key inflight ≡ none
      → All (Held inflight records) us
      → (is_in key (keys_of us) ≡ false) × All (Held (insert key hash inflight) records) us
  claimed-Held hash [] free h = (refl, tt)
  claimed-Held hash (u ∷ us) free h =
      let other : (key == u.0) ≡ false = elim (Bool-cases (key == u.0)) [
        | inr differs ↦ differs
        | inl same ↦
            let e : key ≡ u.0 = (triple_eq.beq_iff key u.0).0 same in
            let both : none ≡ some u.1 =
              sym free ∙ ap (λ (k : Key₃). lookup k inflight) e ∙ h.0.0 in
            absurd (cc both)
      ] in
      let rest = claimed-Held hash us free h.1 in
      (
        cons-is_in key u.0 (keys_of us) (beq_sym key u.0 other) rest.0,
        ((rw (lookup-insert key u.0 hash inflight) (rw other h.0.0), h.0.1), rest.1),
      )

  released-Held :
      (us : List (Key₃ × String))
      → is_in key (keys_of us) ≡ false
      → All (Held inflight records) us
      → All (Held (remove key inflight) records) us
  released-Held [] out h = tt
  released-Held (u ∷ us) out h =
      let apart = is_in-cons key u.0 (keys_of us) out in
      let other : (key == u.0) ≡ false = beq_sym u.0 key apart.0 in
      ((rw (lookup-remove key u.0 inflight) (rw other h.0.0), h.0.1), released-Held us apart.1 h.1)

  registered-Held :
      (r : MediaUploadIdempotencyRecord) (us : List (Key₃ × String))
      → is_in key (keys_of us) ≡ false
      → All (Held inflight records) us
      → All (Held inflight (insert key r records)) us
  registered-Held r [] out h = tt
  registered-Held r (u ∷ us) out h =
      let apart = is_in-cons key u.0 (keys_of us) out in
      let other : (key == u.0) ≡ false = beq_sym u.0 key apart.0 in
      (
        (h.0.0, rw (lookup-insert key u.0 r records) (rw other h.0.1)),
        registered-Held r us apart.1 h.1,
      )

module _ (P : Key₃ × String → Type 0) where
  All-without :
      (before after : List (Key₃ × String)) (u : Key₃ × String)
      → All P (before ++ u ∷ after)
      → P u × All P (before ++ after)
  All-without [] after u h = h
  All-without (b ∷ before) after u h =
      let rest = All-without before after u h.1 in (rest.0, (h.0, rest.1))

is_in-without :
    (k : Key₃) (before after : List (Key₃ × String)) (u : Key₃ × String)
    → is_in k (keys_of (before ++ u ∷ after)) ≡ false
    → (is_in k (keys_of (before ++ after)) ≡ false) × ((u.0 == k) ≡ false)
is_in-without k [] after u h = let out = is_in-cons k u.0 (keys_of after) h in (out.1, out.0)
is_in-without k (b ∷ before) after u h =
    let out = is_in-cons k b.0 (keys_of (before ++ u ∷ after)) h in
    let rest = is_in-without k before after u out.1 in
    (cons-is_in k b.0 (keys_of (before ++ after)) out.0 rest.0, rest.1)

Distinct-without :
    (before after : List (Key₃ × String)) (u : Key₃ × String)
    → Distinct (keys_of (before ++ u ∷ after))
    → Distinct (keys_of (before ++ after)) × (is_in u.0 (keys_of (before ++ after)) ≡ false)
Distinct-without [] after u d = (d.1, d.0)
Distinct-without (b ∷ before) after u d =
    let out = is_in-without b.0 before after u d.0 in
    let rest = Distinct-without before after u d.1 in
    ((out.0, rest.0), cons-is_in u.0 b.0 (keys_of (before ++ after)) (beq_sym u.0 b.0 out.1) rest.1)

claim-IsExclusive :
    (s : StoreInner) (us : List (Key₃ × String)) (key : Key₃) (hash : String)
    → IsExclusive (record { inner = s; uploading = us })
    → IsExclusive (record {
      inner = (try_claim key hash s).1;
      uploading = with_claim key hash (try_claim key hash s).0 us;
    })
unfolding try_claim
claim-IsExclusive s us key hash x = elim (Option-cases (lookup key s.media_upload_idempotency)) [
  | inr (r, e) ↦ rw (e, try_claim) x
  | inl fresh ↦ elim (Option-cases (lookup key s.media_upload_idempotency_inflight)) [
    | inr (other, e) ↦ elim (Bool-cases (other == hash)) [
      | inl same ↦ rw (fresh, try_claim) (rw e (rw same x))
      | inr differs ↦ rw (fresh, try_claim) (rw e (rw differs x))
    ]
    | inl free ↦
        let rest =
          claimed-Held key s.media_upload_idempotency_inflight s.media_upload_idempotency hash us
            free x.1 in
        rw (fresh, try_claim)
          (rw free (
            (rest.0, x.0),
            ((lookup-insert_self key hash s.media_upload_idempotency_inflight, fresh), rest.1),
          ))
  ]
]

release-IsExclusive :
    (s : StoreInner) (key : Key₃) (us : List (Key₃ × String))
    → is_in key (keys_of us) ≡ false
    → IsExclusive (record { inner = s; uploading = us })
    → IsExclusive (record { inner = release key s; uploading = us })
unfolding release
release-IsExclusive s key us out x = (
  x.0,
  released-Held key s.media_upload_idempotency_inflight s.media_upload_idempotency us out x.1,
)

finish-IsExclusive :
    (s : StoreInner) (key : Key₃) (hash : String) (us : List (Key₃ × String))
    (uploaded : Result MediaObject)
    → is_in key (keys_of us) ≡ false
    → IsExclusive (record { inner = s; uploading = us })
    → IsExclusive (record { inner = (finish_upload key hash uploaded s).1; uploading = us })
unfolding finish_upload
finish-IsExclusive s key hash us (err e) out x = release-IsExclusive s key us out x
finish-IsExclusive s key hash us (ok media) out x =
    elim (Option-cases (lookup key s.media_upload_idempotency)) [
      | inr (r, e) ↦ rw (e, finish_upload) (release-IsExclusive s key us out x)
      | inl fresh ↦
          let r : MediaUploadIdempotencyRecord = record {
            request_hash = hash;
            media_id = media.id;
          } in
          let t : StoreInner = record s {
            media_upload_idempotency = insert key r s.media_upload_idempotency;
          } in
          rw (fresh, finish_upload)
            (release-IsExclusive t key us out (
              x.0,
              registered-Held key s.media_upload_idempotency_inflight s.media_upload_idempotency r
                  us out x.1,
            ))
    ]

pub without-IsExclusive :
    (s : StoreInner) (before after : List (Key₃ × String)) (u : Key₃ × String)
    → IsExclusive (record { inner = s; uploading = before ++ u ∷ after })
    → IsExclusive (record { inner = s; uploading = before ++ after })
      × (is_in u.0 (keys_of (before ++ after)) ≡ false)
      × Held s.media_upload_idempotency_inflight s.media_upload_idempotency u
without-IsExclusive s before after u x =
    let names = Distinct-without before after u x.0 in
    let held =
      All-without (Held s.media_upload_idempotency_inflight s.media_upload_idempotency) before after
        u x.1 in
    ((names.0, held.1), names.1, held.0)

pub Step-IsExclusive : {x y : System} → Step x y → IsExclusive x → IsExclusive y
unfolding drop_guard
Step-IsExclusive (Step.claim s us key hash) x = claim-IsExclusive s us key hash x
Step-IsExclusive (Step.finish s before after key hash uploaded) x =
    let (rest, out, held) = without-IsExclusive s before after (key, hash) x in
    finish-IsExclusive s key hash (before ++ after) uploaded out rest
Step-IsExclusive (Step.cancel s before after key hash) x =
    let (rest, out, held) = without-IsExclusive s before after (key, hash) x in
    elim (Bool-cases
      (is_some_and (lookup key s.media_upload_idempotency_inflight) (λ h. h == hash))) [
        | inl armed ↦ rw (armed, drop_guard) (release-IsExclusive s key (before ++ after) out rest)
        | inr gone ↦ rw (gone, drop_guard) rest
      ]
Step-IsExclusive (Step.other s t us e f) x = (x.0, rw (e, f) x.1)

-- Whatever claims, registrations, cancellations and other operations come, and in whatever order,
-- no two calls upload under one key at a time, each that uploads holds its key, and no key that is
-- being uploaded under has a record.
pub Steps-IsExclusive : {x y : System} → IsExclusive x → Steps x y → IsExclusive y
Steps-IsExclusive h Steps.done = h
Steps-IsExclusive h (Steps.then steps step) = Step-IsExclusive step (Steps-IsExclusive h steps)
