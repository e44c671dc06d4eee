-- ===== src/Rpc/Errors/Blame.antt =====
-- Which replies count against the provider that gave them (client.go).
use titanarb_engine.Base.{
  ℕ, zero, suc, ◌≤◌, ◌<◌, ◌/◌, ◌≡◌, refl, ◌∙◌, sym, ◌⊎◌, inl, inr, Bool, true, false, not, ◌&&◌,
  ◌||◌, Text, bytes, none, some, arith, ltb, leb, ◌==◌, if◌then◌else◌, contains, decimal,
  Bool-cases, Option-cases, sum_cases, inl-inj,
}
use titanarb_engine.Base.Int.{ℤ}
use titanarb_engine.Rpc.Errors.{
  Cause, canceled, deadline_exceeded, message, Failure, typed, bare, Reply, invalid_request, unsent,
  unread, response, call_provider, provider_failure, plan_limit_message, rpc_rate_limited,
  quota_limit_message, envelope_message, Envelope, EnvelopeError, http_failure, member_failure,
  status_text, classify_cause, http, envelope_code, RpcError,
}

-- The statuses that blame the provider whatever the body says.
abbrev pub is_blamed_status : ℕ → Bool
is_blamed_status status = status == 403 || status == 429 || leb 500 status && ltb status 600

-- The replies that blame the provider.
pub blamed : {A : Type 0} → Reply A → Bool
blamed (invalid_request e) = false
blamed (unsent c) = elim c [ canceled ↦ false | deadline_exceeded ↦ true | message m ↦ true ]
blamed (unread c) = elim c [ canceled ↦ false | deadline_exceeded ↦ true | message m ↦ true ]
blamed (response status body v) =
    if status / 100 == 2
    then elim v [
      | inl e ↦ false
      | inr envelope ↦ elim envelope.failure [
        | none ↦ false
        | some e ↦ rpc_rate_limited e.code e.message
      ]
    ]
    else is_blamed_status status || status == 400 && plan_limit_message (envelope_message v body)

-- The test of the text of an error that blames the provider.
abbrev text_blames : Text → Bool
text_blames text = not (
    not (contains (bytes " 403") text)
    && not (contains (bytes " 429") text)
    && not (contains (bytes " 5") text))

same : Bool → Bool → Bool
same true b = b
same false b = not b

same_eq : (a b : Bool) → same a b ≡ true → a ≡ b
unfolding same
same_eq true b h = ground arith
same_eq false b h = ground arith

-- A test on every number from 100 on, below a bound.
holds_below : ℕ → (ℕ → Bool) → Bool
holds_below zero p = true
holds_below (suc n) p = (ltb n 100 || p n) && holds_below n p

holds_below_sound :
    (n : ℕ) (p : ℕ → Bool) (x : ℕ) → holds_below n p ≡ true → 100 ≤ x → x < n → p x ≡ true
unfolding holds_below
holds_below_sound zero p x h low high = absurd (omega arith)
holds_below_sound (suc n) p x h low high = ground (arith, holds_below_sound n p x)

status_table :
    holds_below 1000 (λ s. same (text_blames (status_text s)) (is_blamed_status s)) ≡ true
unfolding holds_below same status_text contains decimal
status_table = refl

status-blames : (s : ℕ) → 100 ≤ s → s < 1000 → text_blames (status_text s) ≡ is_blamed_status s
status-blames s low high = same_eq _ _ (holds_below_sound 1000 _ s status_table low high)

-- An error of the kind HTTP blames by its text, or as a rejected plan.
module _ (text : Text) (status : ℕ) (code : ℤ) (msg : Text) where
  abbrev http_error : RpcError
  http_error = record {
    kind = http;
    cause = message text;
    http_status = status;
    rpc_code = code;
    rpc_message = msg;
  }

  http_error-blames :
      provider_failure (typed http_error)
      ≡ (text_blames text || status == 400 && plan_limit_message msg)
  unfolding provider_failure
  http_error-blames = ground arith

  http_error-true : text_blames text ≡ true → provider_failure (typed http_error) ≡ true
  http_error-true h = http_error-blames ∙ ground arith

quota_blames : text_blames (bytes "rpc HTTP status 429: quota exhausted") ≡ true
unfolding contains
quota_blames = refl

limited_blames : text_blames (bytes "rpc HTTP status 429") ≡ true
unfolding contains
limited_blames = refl

member_failure-blames :
    (status : ℕ) (e : EnvelopeError)
    → status / 100 ≡ 2
    → provider_failure (typed (member_failure status e)) ≡ rpc_rate_limited e.code e.message
unfolding provider_failure member_failure
member_failure-blames status e ok = elim (Bool-cases (rpc_rate_limited e.code e.message)) [
  | inr no_limit ↦ rw (no_limit, member_failure) refl
  | inl limited ↦ elim (Bool-cases (quota_limit_message e.message)) [
    | inl quota ↦
        rw (limited, quota, member_failure)
          (http_error-true (bytes "rpc HTTP status 429: quota exhausted") status e.code e.message
            quota_blames)
    | inr per_second ↦
        rw (limited, per_second, member_failure)
          (http_error-true (bytes "rpc HTTP status 429") status e.code e.message limited_blames)
  ]
]

classify_cause-blames :
    (c : Cause)
    → provider_failure (typed (classify_cause c))
      ≡ elim c [ canceled ↦ false | deadline_exceeded ↦ true | message m ↦ true ]
unfolding provider_failure classify_cause
classify_cause-blames canceled = refl
classify_cause-blames deadline_exceeded = refl
classify_cause-blames (message m) = refl

-- The statuses of HTTP have three digits.
abbrev pub HasDigits : {A : Type 0} → Reply A → Type 0
HasDigits (response s body v) = (100 ≤ s) × (s < 1000)
HasDigits _ = Unit

-- The error of a response, by its status.
module _ {A : Type 0} (s : ℕ) (body : Text) (v : Text ⊎ Envelope A) where
  response_quota :
      s ≡ 429
      → quota_limit_message body ≡ true
      → call_provider (response s body v)
        ≡ inl (typed (http_failure (bytes "rpc HTTP status 429: quota exhausted") s body v))
  unfolding call_provider
  response_quota many quota = rw (many, quota) refl

  response_many :
      s ≡ 429
      → quota_limit_message body ≡ false
      → call_provider (response s body v) ≡ inl (typed (http_failure (status_text s) s body v))
  unfolding call_provider
  response_many many quota = rw (many, quota) refl

  response_failed :
      (s == 429) ≡ false
      → (s / 100 == 2) ≡ false
      → call_provider (response s body v) ≡ inl (typed (http_failure (status_text s) s body v))
  unfolding call_provider
  response_failed other failed = elim (Bool-cases (leb 500 s)) [
    | inl high ↦ rw (other, high) refl
    | inr low ↦ rw (other, low, failed) refl
  ]

-- The statuses from 200 to 299 are none of those that the code tests first.
success_tests : (s : ℕ) → (s / 100 == 2) ≡ true → ((s == 429) ≡ false) × (leb 500 s ≡ false)
success_tests s ok = ground arith

undecoded_lem :
    {A : Type 0} (s : ℕ) (body e : Text)
    → (s / 100 == 2) ≡ true
    → call_provider {A = A} (response s body (inl e)) ≡ inl (bare (message e))
unfolding call_provider
undecoded_lem s body e ok = let (a, b) = success_tests s ok in rw (a, b, ok) refl

member_lem :
    {A : Type 0} (s : ℕ) (body : Text) (v : Envelope A) (e : EnvelopeError)
    → (s / 100 == 2) ≡ true
    → v.failure ≡ some e
    → call_provider (response s body (inr v)) ≡ inl (typed (member_failure s e))
unfolding call_provider
member_lem s body v e ok h = let (a, b) = success_tests s ok in rw (a, b, ok, h) refl

bare-blames : (e : Text) → provider_failure (bare (message e)) ≡ false
unfolding provider_failure
bare-blames e = refl

result_lem :
    {A : Type 0} (s : ℕ) (body : Text) (v : Envelope A) (f : Failure)
    → (s / 100 == 2) ≡ true
    → v.failure ≡ none
    → call_provider (response s body (inr v)) ≡ inl f
    → provider_failure f ≡ false
unfolding call_provider
result_lem s body v f ok h e =
    let (a, b) = success_tests s ok in
    elim (sum_cases v.result) [
      | inl (m, bad) ↦
          let same : bare (message m) ≡ f = inl-inj (rw (a, b, ok, h, bad) at e) in
          rw (← same) (bare-blames m)
      | inr (r, good) ↦ let e' = rw (a, b, ok, h, good) at e in absurd (ground arith)
    ]

response_success :
    {A : Type 0} (s : ℕ) (body : Text) (v : Text ⊎ Envelope A) (f : Failure)
    → (s / 100 == 2) ≡ true
    → call_provider (response s body v) ≡ inl f
    → provider_failure f ≡ blamed (response s body v)
unfolding blamed
response_success s body (inl e) f ok h =
    let same : bare (message e) ≡ f = inl-inj (sym (undecoded_lem s body e ok) ∙ h) in
    rw (← same, ok) (bare-blames e)
response_success s body (inr v) f ok h = elim (Option-cases v.failure) [
  | inl absent ↦ rw (ok, absent) (result_lem s body v f ok absent h)
  | inr (e, present) ↦
      let same : typed (member_failure s e) ≡ f =
        inl-inj (sym (member_lem s body v e ok present) ∙ h) in
      rw (← same, ok, present) (member_failure-blames s e (ground arith))
]

response-blamed :
    {A : Type 0} (s : ℕ) (body : Text) (v : Text ⊎ Envelope A) (f : Failure)
    → (100 ≤ s) × (s < 1000)
    → call_provider (response s body v) ≡ inl f
    → provider_failure f ≡ blamed (response s body v)
unfolding blamed http_failure
response-blamed s body v f d h = elim (Bool-cases (s / 100 == 2)) [
  | inl success ↦ response_success s body v f success h
  | inr failed ↦ elim (Bool-cases (s == 429)) [
    | inr other ↦
        let same : typed (http_failure (status_text s) s body v) ≡ f =
          inl-inj (sym (response_failed s body v other failed) ∙ h) in
        rw (← same, failed) (by_status (status-blames s d.0 d.1))
    | inl many ↦ elim (Bool-cases (quota_limit_message body)) [
      | inl quota ↦
          let same : typed (http_failure _ s body v) ≡ f =
            inl-inj (sym (response_quota s body v (ground arith) quota) ∙ h) in
          rw (← same, failed)
            (http_error-true _ s (envelope_code v) (envelope_message v body) quota_blames
              ∙ ground arith)
      | inr second ↦
          let same : typed (http_failure (status_text s) s body v) ≡ f =
            inl-inj (sym (response_many s body v (ground arith) second) ∙ h) in
          rw (← same, failed) (by_status (status-blames s d.0 d.1))
    ]
  ]
]
  where
    by_status :
        text_blames (status_text s) ≡ is_blamed_status s
        → provider_failure (typed (http_failure (status_text s) s body v))
          ≡ (is_blamed_status s || s == 400 && plan_limit_message (envelope_message v body))
    by_status e =
        http_error-blames (status_text s) s (envelope_code v) (envelope_message v body)
        ∙ ground (arith, e)

-- A failed request counts against the provider exactly if it was not cancelled and could not be sent
-- or read, or the response has the status 403, 429 or 5xx, or it has the status 400 with a message
-- on a limit of the plan, or it is a success whose error says that the rate is limited. The status
-- has three digits.
pub call_provider-blamed :
    {A : Type 0} (r : Reply A) (f : Failure)
    → HasDigits r
    → call_provider r ≡ inl f
    → provider_failure f ≡ blamed r
unfolding call_provider blamed
call_provider-blamed (invalid_request e) f d h =
    let same : bare (message e) ≡ f = inl-inj h in rw (← same) (unfold provider_failure in refl)
call_provider-blamed (unsent c) f d h =
    let same : typed (classify_cause c) ≡ f = inl-inj h in rw (← same) (classify_cause-blames c)
call_provider-blamed (unread c) f d h =
    let same : typed (classify_cause c) ≡ f = inl-inj h in rw (← same) (classify_cause-blames c)
call_provider-blamed (response s body v) f d h = response-blamed s body v f d h
