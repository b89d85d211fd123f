-- ===== src/RateLimit/Scopes.antt =====
-- src/state.rs: the keys that `enforce_rate_limit` makes for a call.
use Prim.Native.Char.{Char, code}
use text.Mathlib.TextLemmas.{cons-append}
use rust_zap.Prelude.{
  ◌<>◌, ℕ, ◌≡◌, refl, ap, String, Bool, true, false, ◌&&◌, Option, none, some, List, [], ◌∷◌, arith,
  inl, inr, Bool-cases, nat_eq, any, map, ◌++◌, not,
}
use rust_zap.Dict.{◌==◌, string_eq}
use rust_zap.Dict.Distinct.{is_in, Distinct}
use rust_zap.RateLimit.{
  RateLimitScope, scope_keys, project_keys, company_keys, resource_keys, client_ip,
}

initial : String → ℕ
initial String.[] = 0
initial (String.◌∷◌ c s) = code c

-- A text keeps its first letter when another is put after it.
initial-append : (c : Char) (s t : String) → initial (String.◌∷◌ c s <> t) ≡ code c
unfolding initial
initial-append c s t = ap initial (cons-append c s t)

initial-api_key : (t : String) → initial ("api_key:" <> t) ≡ 97
initial-api_key t = initial-append "a" "pi_key:" t

initial-ip : (t : String) → initial ("ip:" <> t) ≡ 105
initial-ip t = initial-append "i" "p:" t

initial-project : (t : String) → initial ("project:" <> t) ≡ 112
initial-project t = initial-append "p" "roject:" t

initial-company : (t : String) → initial ("company:" <> t) ≡ 99
initial-company t = initial-append "c" "ompany:" t

initial-resource : (t : String) → initial ("resource:" <> t) ≡ 114
initial-resource t = initial-append "r" "esource:" t

abbrev differ : List ℕ → Bool
differ [] = true
differ (n ∷ r) = not (any (λ m. nat_eq m n) r) && differ r

missing :
    (key : String) (r : List String)
    → any (λ m. nat_eq m (initial key)) (map initial r) ≡ false
    → is_in key r ≡ false
missing key [] h = refl
missing key (k ∷ r) h = elim (Bool-cases (k == key)) [
  | inl same ↦
      let e : initial k ≡ initial key = ap initial ((string_eq.beq_iff k key).0 same) in
      let there : nat_eq (initial k) (initial key) ≡ true = rw e (ground arith) in
      absurd (ground arith)
  | inr other ↦ rw other (missing key r (ground arith))
]

differ-Distinct : (r : List String) → differ (map initial r) ≡ true → Distinct r
differ-Distinct [] h = tt
differ-Distinct (k ∷ r) h = (missing k r (ground arith), differ-Distinct r (ground arith))

pub scope_keys-Distinct : (scope : RateLimitScope) → Distinct (scope_keys scope)
unfolding scope_keys
scope_keys-Distinct scope =
    differ-Distinct (scope_keys scope) (letters scope.project_id scope.company_id scope.resource_id)
  where
    letters :
        (project_id company_id resource_id : Option String)
        → differ (
            map initial (
              ("api_key:" <> (scope.api_key_id <> (":family:" <> scope.family)))
              ∷ ("ip:" <> (client_ip scope.header <> (":family:" <> scope.family)))
              ∷ (project_keys scope.family project_id
                  ++ (company_keys scope.family project_id company_id
                      ++ resource_keys scope.family resource_id))))
          ≡ true
    letters none none none = rw (initial-api_key, initial-ip) refl
    letters none none (some r) = rw (initial-api_key, initial-ip, initial-resource) refl
    letters none (some c) none = rw (initial-api_key, initial-ip) refl
    letters none (some c) (some r) = rw (initial-api_key, initial-ip, initial-resource) refl
    letters (some p) none none = rw (initial-api_key, initial-ip, initial-project) refl
    letters (some p) none (some r) =
        rw (initial-api_key, initial-ip, initial-project, initial-resource) refl
    letters (some p) (some c) none =
        rw (initial-api_key, initial-ip, initial-project, initial-company) refl
    letters (some p) (some c) (some r) =
        rw (initial-api_key, initial-ip, initial-project, initial-company, initial-resource) refl
