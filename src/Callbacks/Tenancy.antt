-- ===== src/Callbacks/Tenancy.antt =====
-- src/state.rs: whose callbacks `upsert_callback` and `delete_callback` touch, and which secret is
-- stored.
use rust_zap.Prelude.{
  ◌<>◌, ◌≡◌, refl, sym, ap, subst, String, true, false, ◌&&◌, Option, none, some, inl, inr, ◌⊎◌,
  Bool-cases, Option-cases, if◌then◌else◌, unwrap_or, is_some, is_some_and, and_then,
}
use rust_zap.Dict.{◌==◌, string_eq, lookup}
use rust_zap.Dict.Laws.{lookup-insert, lookup-remove, beq_refl}
use rust_zap.Error.{Result, ok, err, Result-cases, ◌>>=◌}
use rust_zap.Models.{Time}
use rust_zap.Config.{AppConfig}
use rust_zap.Store.{StoreInner}
use rust_zap.Json.{Value, null, str, of_option, get, get_field, get_str}
use rust_zap.Audit.{audit_log}
use rust_zap.Webhooks.{webhook_signal_enabled}
use rust_zap.Callbacks.{
  CallbackDraws, Encryption, callback_belongs_to_company, sanitize_callback, is_foreign, and_some,
  encrypt_callback_secret, choose_secret, build_callback, store_callback, upsert_callback,
  delete_callback, address_of,
}
use rust_zap.Callbacks.Address.{Url, validate_callback_url}
use rust_zap.Callbacks.Secrets.{sanitize_callback-get}

-- The stored secret `kept` is the encryption of `plain` under the master key.
abbrev pub Seals : Encryption → String → Option Value → Type 0
Seals encryption plain kept =
    (encrypt : String → Result String) × (sealed : String) × (encryption ≡ some encrypt)
    × (encrypt plain ≡ ok sealed)
    × (kept ≡ some (str sealed))

-- What is stored as the secret: the encryption of the secret that the body gives; else the encrypted
-- secret of the callback that is there; else the encryption of the secret that it has in the clear;
-- else the encryption of a fresh one, or `null` if there is no master key.
abbrev pub Keeps :
    Encryption → (given sealed clear : Option String) → (fresh : String) → Option Value → Type 0
Keeps encryption (some secret) sealed clear fresh kept = Seals encryption secret kept
Keeps encryption none (some old) clear fresh kept = kept ≡ some (str old)
Keeps encryption none none (some legacy) fresh kept = Seals encryption legacy kept
Keeps encryption none none none fresh kept =
    Seals encryption ("whsec_" <> fresh) kept ⊎ ((encryption ≡ none) × (kept ≡ some null))

abbrev WhereChosen : (Option Value → Type 0) → Result (Option String) → Type 0
WhereChosen P (err e) = Unit
WhereChosen P (ok secret) = P (some (of_option secret))

module _ (encryption : Encryption) where
  encrypt-Seals :
      (plain : String)
      → WhereChosen (Seals encryption plain) (and_some (encrypt_callback_secret encryption plain))
  unfolding encrypt_callback_secret
  encrypt-Seals plain = elim (Option-cases encryption) [
    | inl no_key ↦ rw (no_key, encrypt_callback_secret) tt
    | inr (encrypt, key) ↦ elim (Result-cases (encrypt plain)) [
      | inl (fault, f) ↦ rw (key, encrypt_callback_secret) (rw f tt)
      | inr (sealed, f) ↦ rw (key, encrypt_callback_secret) (rw f (encrypt, sealed, refl, f, refl))
    ]
  ]

  chosen-left :
      (P Q : Option Value → Type 0) (r : Result (Option String))
      → WhereChosen P r
      → WhereChosen (λ kept. P kept ⊎ Q kept) r
  chosen-left P Q (err e) h = tt
  chosen-left P Q (ok secret) h = inl h

  choose_secret-Keeps :
      (config : AppConfig) (body : Value) (existing : Option Value) (fresh : String)
      → WhereChosen
          (Keeps encryption
            (get_str "secret" body)
            (and_then existing (get_str "encrypted_secret"))
            (and_then existing (get_str "secret"))
            fresh)
          (choose_secret config encryption body existing fresh)
  unfolding choose_secret
  choose_secret-Keeps config body existing fresh = elim (Option-cases (get_str "secret" body)) [
    | inr (secret, g) ↦ rw (g, choose_secret) (encrypt-Seals secret)
    | inl g ↦ elim (Option-cases (and_then existing (get_str "encrypted_secret"))) [
      | inr (old, e) ↦ rw (g, choose_secret) (rw e refl)
      | inl e ↦ elim (Option-cases (and_then existing (get_str "secret"))) [
        | inr (legacy, l) ↦ rw (g, choose_secret) (rw e (rw l (encrypt-Seals legacy)))
        | inl l ↦ elim (Option-cases encryption) [
          | inr (encrypt, key) ↦
              rw (g, choose_secret)
                (rw e (
                  rw l (
                    rw (ap (is_some {0}) key) (
                      chosen-left (Seals encryption ("whsec_" <> fresh))
                        (λ kept. (encryption ≡ none) × (kept ≡ some null)) _
                        (encrypt-Seals ("whsec_" <> fresh))))))
          | inl no_key ↦
              elim (Bool-cases (config.webhook.delivery_enabled && webhook_signal_enabled config)) [
                | inl needed ↦
                    rw (g, choose_secret)
                      (rw e (rw l (rw (ap (is_some {0}) no_key) (rw needed tt))))
                | inr optional ↦
                    rw (g, choose_secret)
                      (rw e
                        (rw l (rw (ap (is_some {0}) no_key) (rw optional (inr (no_key, refl))))))
              ]
        ]
      ]
    ]
  ]

after-WhereChosen :
    (P : Option Value → Type 0) (m : Result (Unit {0})) (r : Result (Option String))
    → WhereChosen P r
    → WhereChosen P (m >>= λ _. r)
after-WhereChosen P (err e) r h = tt
after-WhereChosen P (ok u) r h = h

module _ (ts : Time → String) (p c : String) where
  -- What a write of a callback leaves, by its reply.
  abbrev pub Upserted :
      Encryption
      → (id : String) → Value
      → (fresh : String) → StoreInner
      → Result Value × StoreInner
      → Type 0
  Upserted encryption id body fresh s (err e, t) = t ≡ s
  Upserted encryption id body fresh s (ok reply, t) =
      (callback : Value) × (is_foreign ts p c (lookup id s.callbacks) ≡ false)
      × ((other : String)
          → lookup other t.callbacks
            ≡ (if id == other then some callback else lookup other s.callbacks))
      × (callback_belongs_to_company callback p c ≡ true)
      × (get "secret" callback ≡ none)
      × Keeps encryption (get_str "secret" body)
          (and_then (lookup id s.callbacks) (get_str "encrypted_secret"))
          (and_then (lookup id s.callbacks) (get_str "secret")) fresh
          (get "encrypted_secret" callback)
      × (reply ≡ sanitize_callback callback)
      × (get "secret" reply ≡ none)
      × (get "encrypted_secret" reply ≡ none)

  build_callback-own :
      (config : AppConfig) (id created url : String) (secret : Option String) (body : Value)
      (now : Time)
      → let callback = build_callback ts config p c id created url secret body now in
        (callback_belongs_to_company callback p c ≡ true)
        × (get "secret" callback ≡ none)
        × (get "encrypted_secret" callback ≡ some (of_option secret))
  unfolding build_callback callback_belongs_to_company get get_field
  build_callback-own config id created url secret body now =
      (rw (beq_refl p, beq_refl c) refl, refl, refl)

  store_callback-Upserted :
      (config : AppConfig) (encryption : Encryption) (id url : String) (body : Value)
      (draws : CallbackDraws) (s : StoreInner) (secret : Result (Option String))
      → is_foreign ts p c (lookup id s.callbacks) ≡ false
      → WhereChosen
          (Keeps encryption
            (get_str "secret" body)
            (and_then (lookup id s.callbacks) (get_str "encrypted_secret"))
            (and_then (lookup id s.callbacks) (get_str "secret"))
            draws.secret)
          secret
      → Upserted encryption id body draws.secret s
          (store_callback ts config p c id url body (lookup id s.callbacks) draws s secret)
  unfolding store_callback audit_log
  store_callback-Upserted config encryption id url body draws s (err e) own h = refl
  store_callback-Upserted config encryption id url body draws s (ok secret) own h =
      let existing = lookup id s.callbacks in
      let created = unwrap_or (and_then existing (get_str "created_at")) (ts draws.now) in
      let callback = build_callback ts config p c id created url secret body draws.now in
      let (tenant, clear, kept) = build_callback-own config id created url secret body draws.now in
      let shown = sanitize_callback-get callback in
      (
        callback,
        own,
        (λ other. lookup-insert id other callback s.callbacks),
        tenant,
        clear,
        subst
            (Keeps encryption (get_str "secret" body)
              (and_then existing (get_str "encrypted_secret"))
              (and_then existing (get_str "secret")) draws.secret)
            (sym kept) h,
        refl,
        shown.0,
        shown.1,
      )

  pub upsert_callback-Upserted :
      (parse_url : String → Result Url) (config : AppConfig) (encryption : Encryption)
      (asked : Option String) (body : Value) (draws : CallbackDraws) (s : StoreInner)
      → Upserted encryption
          (unwrap_or asked ("callback_" <> draws.callback_id))
          body
          draws.secret
          s
          (upsert_callback ts parse_url config encryption p c asked body draws s)
  unfolding upsert_callback
  upsert_callback-Upserted parse_url config encryption asked body draws s =
      let id = unwrap_or asked ("callback_" <> draws.callback_id) in
      let existing = lookup id s.callbacks in
      let url = address_of ts body existing in
      let keeps =
        Keeps encryption (get_str "secret" body) (and_then existing (get_str "encrypted_secret"))
          (and_then existing (get_str "secret")) draws.secret in
      elim (Bool-cases (is_foreign ts p c existing)) [
        | inl foreign ↦ rw (foreign, upsert_callback) refl
        | inr own ↦
            rw (own, upsert_callback)
              (store_callback-Upserted config encryption id url body draws s _ own (
                after-WhereChosen keeps (validate_callback_url parse_url url config.dev_mode) _
                  (choose_secret-Keeps encryption config body existing draws.secret)))
      ]

  -- What a deletion leaves, by its reply.
  abbrev pub Deleted : String → StoreInner → Result Value × StoreInner → Type 0
  Deleted id s (err e, t) = t ≡ s
  Deleted id s (ok reply, t) =
      (is_some_and (lookup id s.callbacks) (λ callback. callback_belongs_to_company callback p c)
        ≡ true)
      × ((other : String)
          → lookup other t.callbacks ≡ (if id == other then none else lookup other s.callbacks))

  -- A deletion that fails changes nothing. One that succeeds was of a callback of the company's own,
  -- and takes that one callback away and no other.
  pub delete_callback-Deleted :
      (id : String) (draws : CallbackDraws) (s : StoreInner)
      → Deleted id s (delete_callback ts p c id draws s)
  unfolding delete_callback audit_log
  delete_callback-Deleted id draws s = elim (Option-cases (lookup id s.callbacks)) [
    | inl missing ↦ rw (missing, delete_callback) refl
    | inr (callback, e) ↦ elim (Bool-cases (callback_belongs_to_company callback p c)) [
      | inr foreign ↦ rw (e, delete_callback) (rw foreign refl)
      | inl own ↦
          rw (e, delete_callback) (rw own (rw e own, λ other. lookup-remove id other s.callbacks))
    ]
  ]
