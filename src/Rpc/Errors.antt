-- ===== src/Rpc/Errors.antt =====
-- The errors of a request and which of them blame the provider (client.go).
pub mod Blame
use titanarb_engine.Base.{
  ℕ, ◌/◌, Bool, true, false, not, ◌&&◌, ◌||◌, Option, none, some, ◌⊎◌, inl, inr, Text, bytes, ◌++◌,
  leb, ◌==◌, if◌then◌else◌, contains, decimal, to_lower, trim_space, List, [], ◌∷◌,
}
use titanarb_engine.Base.Int.{ℤ, pos, negsuc, eq_ℤ}

-- The error at the root of a chain of wrapped errors.
pub data Cause : Type 0 where
  canceled deadline_exceeded : Cause
  message : Text → Cause

pub cause_text : Cause → Text
cause_text canceled = bytes "context canceled"
cause_text deadline_exceeded = bytes "context deadline exceeded"
cause_text (message m) = m

-- ErrorKind
pub data ErrorKind : Type 0 where
  network timeout rpc http : ErrorKind

-- Error
pub record RpcError : Type 0 where
  pub kind : ErrorKind
  pub cause : Cause
  pub http_status : ℕ
  pub rpc_code : ℤ
  pub rpc_message : Text

-- An error of the package, or any other.
pub data Failure : Type 0 where
  typed : RpcError → Failure
  bare : Cause → Failure

pub cause_of : Failure → Cause
cause_of (typed e) = e.cause
cause_of (bare c) = c

-- err.Error()
unfoldable pub error_text : Failure → Text
unfolding cause_of cause_text
error_text f = cause_text (cause_of f)

-- errors.Is(err, context.Canceled)
pub is_canceled : Failure → Bool
unfolding cause_of
is_canceled f = elim (cause_of f) [
  | canceled ↦ true
  | deadline_exceeded ↦ false
  | message m ↦ false
]

-- classify
pub classify_cause : Cause → RpcError
classify_cause c = record {
  kind = elim c [ canceled ↦ network | deadline_exceeded ↦ timeout | message m ↦ network ];
  cause = c;
  http_status = 0;
  rpc_code = pos 0;
  rpc_message = [];
}

-- planLimitMessage
pub plan_limit_message : Text → Bool
plan_limit_message text =
    let m = to_lower text in
    if contains (bytes "invalid params") m
      || contains (bytes "malformed") m
      || contains (bytes "parse error") m
    then false
    else contains (bytes "block range") m
      || contains (bytes "too many blocks") m
      || contains (bytes "range too large") m
      || contains (bytes "query returned more than") m
      || contains (bytes "response size") m
      || contains (bytes "limit exceeded") m

-- quotaLimitMessage
unfoldable pub quota_limit_message : Text → Bool
quota_limit_message text =
    let m = to_lower text in
    contains (bytes "daily request limit") m
    || contains (bytes "usage limit") m
    || contains (bytes "quota exhausted") m

-- rpcRateLimited
pub rpc_rate_limited : ℤ → Text → Bool
rpc_rate_limited code text =
    let m = to_lower text in
    if eq_ℤ code (pos 429) || eq_ℤ code (negsuc 32004)
    then true
    else contains (bytes "rate limit") m
      || contains (bytes "too many requests") m
      || contains (bytes "daily request limit") m
      || contains (bytes "usage limit") m

-- The tests of an error of the package in providerFailure.
pub blames_provider : RpcError → Bool
unfolding plan_limit_message cause_text
blames_provider e = elim e.kind [
  | rpc ↦ false
  | network ↦ true
  | timeout ↦ true
  | http ↦
      let text = cause_text e.cause in
      if e.http_status == 400 && plan_limit_message e.rpc_message
      then true
      else not (
          not (contains (bytes " 403") text)
          && not (contains (bytes " 429") text)
          && not (contains (bytes " 5") text))
]

-- providerFailure
unfoldable pub provider_failure : Failure → Bool
unfolding is_canceled blames_provider
provider_failure f =
    if is_canceled f then false else elim f [ typed e ↦ blames_provider e | bare c ↦ false ]

pub data FailureReason : Type 0 where
  canceled timeout transport rate_limit provider unknown : FailureReason

-- failureReason
unfoldable pub failure_reason : Failure → FailureReason
unfolding is_canceled cause_text
failure_reason f = if is_canceled f then FailureReason.canceled else elim f [
  | bare c ↦ FailureReason.unknown
  | typed e ↦ elim e.kind [
    | timeout ↦ FailureReason.timeout
    | network ↦ FailureReason.transport
    | http ↦
        if contains (bytes " 429") (cause_text e.cause)
        then FailureReason.rate_limit
        else FailureReason.provider
    | rpc ↦ FailureReason.unknown
  ]
]

-- The `error` member of a response.
pub record EnvelopeError : Type 0 where
  pub code : ℤ
  pub message : Text

-- A decoded response; its result is what it decodes to, or the error of the decoding.
pub record Envelope (A : Type 0) : Type 0 where
  pub failure : Option EnvelopeError
  pub result : Text ⊎ A

-- What comes of a request: the request cannot be made, it cannot be sent, its response cannot be
-- read, or there is a response with its status, its body and the envelope, if the body is one.
pub data Reply (A : Type 0) : Type 0 where
  invalid_request : Text → Reply A
  unsent unread : Cause → Reply A
  response : ℕ → Text → Text ⊎ Envelope A → Reply A

-- The text of an error with a status.
pub status_text : ℕ → Text
status_text status = bytes "rpc HTTP status " ++ decimal status

-- The error for the `error` member of a successful response.
pub member_failure : ℕ → EnvelopeError → RpcError
unfolding rpc_rate_limited quota_limit_message
member_failure status e =
    let failed : ErrorKind → Text → RpcError = λ kind text. record {
      kind = kind;
      cause = message text;
      http_status = status;
      rpc_code = e.code;
      rpc_message = e.message;
    } in
    if rpc_rate_limited e.code e.message
    then (if quota_limit_message e.message
        then failed http (bytes "rpc HTTP status 429: quota exhausted")
        else failed http (bytes "rpc HTTP status 429"))
    else failed rpc e.message

module _ {A : Type 0} where
  -- The `error` member, if the body was decoded.
  unfoldable pub member : Text ⊎ Envelope A → Option EnvelopeError
  member (inl e) = none
  member (inr v) = v.failure

  -- envelopeCode
  unfoldable pub envelope_code : Text ⊎ Envelope A → ℤ
  unfolding member
  envelope_code v = elim (member v) [ none ↦ pos 0 | some e ↦ e.code ]

  -- envelopeMessage
  unfoldable pub envelope_message : Text ⊎ Envelope A → Text → Text
  unfolding member
  envelope_message v fallback = elim (member v) [
    | none ↦ trim_space fallback
    | some e ↦ elim (trim_space e.message) [ [] ↦ trim_space fallback | _ ∷ _ ↦ e.message ]
  ]

  -- The error for a status that is not a success.
  unfoldable pub http_failure : Text → ℕ → Text → Text ⊎ Envelope A → RpcError
  unfolding envelope_code envelope_message
  http_failure text status body v = record {
    kind = http;
    cause = message text;
    http_status = status;
    rpc_code = envelope_code v;
    rpc_message = envelope_message v body;
  }

  -- callProvider, for what comes of the request.
  unfoldable pub call_provider : Reply A → Failure ⊎ A
  unfolding classify_cause http_failure status_text member_failure quota_limit_message
  call_provider (invalid_request e) = inl (bare (message e))
  call_provider (unsent c) = inl (typed (classify_cause c))
  call_provider (unread c) = inl (typed (classify_cause c))
  call_provider (response status body v) =
      if status == 429
      then (if quota_limit_message body
          then inl
              (typed (http_failure (bytes "rpc HTTP status 429: quota exhausted") status body v))
          else inl (typed (http_failure (status_text status) status body v)))
      else if leb 500 status
      then inl (typed (http_failure (status_text status) status body v))
      else if not (status / 100 == 2)
      then inl (typed (http_failure (status_text status) status body v))
      else elim v [
        | inl e ↦ inl (bare (message e))
        | inr envelope ↦ elim envelope.failure [
          | some e ↦ inl (typed (member_failure status e))
          | none ↦ elim envelope.result [ inl e ↦ inl (bare (message e)) | inr a ↦ inr a ]
        ]
      ]
