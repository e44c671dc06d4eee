-- ===== src/Safety.antt =====
-- go/internal/safety/oracle.go: the gate over the price feed and the sequencer feed. Times are in
-- nanoseconds since 1970. The responses of the two feeds are arguments, `none` for a failed call.
pub mod Closed
mod Tests
use titanarb_engine.Base.{
  ℕ, zero, suc, ◌+◌, ◌-◌, ◌*◌, ◌/◌, ◌%◌, Bool, true, false, not, ◌&&◌, ◌||◌, Option, none, some,
  List, [], ◌∷◌, Text, ltb, ◌==◌, if◌then◌else◌, length, u64,
}
use titanarb_engine.Base.Int.{ℤ, pos, negsuc, ◌+ℤ◌, ◌-ℤ◌, ◌*ℤ◌, ltb_ℤ, wrap_int64, to_int64}
use titanarb_engine.Dex.{decode_words, word_int, word_uint}
use titanarb_engine.Pools.{positive}

pub record Gate : Type 0 where
  pub eth_usd : Text
  pub sequencer : Text
  pub max_staleness : ℤ
  pub recovery_grace : ℤ

pub record FeedRound : Type 0 where
  pub answer : ℤ
  pub started_at : ℤ
  pub updated_at : ℤ

pub data GateError : Type 0 where
  feed_failed bad_price stale_price sequencer_failed sequencer_down recovering : GateError

-- big.Int.Int64: the low 64 bits, signed.
abbrev pub low_int64 : ℕ → ℤ
low_int64 n = to_int64 (n % u64)

abbrev pub round_of : List (List ℕ) → Option FeedRound
round_of (a ∷ b ∷ c ∷ d ∷ e ∷ words) =
    if word_uint d == 0
    then none
    else some (record {
      answer = word_int b;
      started_at = low_int64 (word_uint c);
      updated_at = low_int64 (word_uint d);
    })
round_of _ = none

abbrev words_of : Option Text → Option (List (List ℕ))
words_of none = none
words_of (some raw) = decode_words raw

-- Gate.latest
pub latest_round : Text → Option Text → Option FeedRound
latest_round to response =
    if length to == 0
    then none
    else elim (words_of response) [ none ↦ none | some words ↦ round_of words ]

-- The seconds from the year 1 to 1970, in which time.Unix counts with 64 bits.
abbrev pub unix_offset : ℕ
unix_offset = 62135596800

-- The seconds of time.Unix(seconds, 0) since 1970.
unfoldable pub unix_time : ℤ → ℤ
unix_time seconds = wrap_int64 (seconds +ℤ pos unix_offset) -ℤ pos unix_offset

-- A time.Duration, cut off at 64 bits.
unfoldable pub saturate : ℤ → ℤ
saturate z =
    if ltb_ℤ z (negsuc 9223372036854775807)
    then negsuc 9223372036854775807
    else if ltb_ℤ (pos 9223372036854775807) z
    then pos 9223372036854775807
    else z

-- now.Sub(time.Unix(seconds, 0)), which saturates.
unfoldable pub since : ℤ → ℤ → ℤ
since now seconds = saturate (now -ℤ unix_time seconds *ℤ pos 1000000000)

abbrev pub is_zero : ℤ → Bool
is_zero (pos n) = n == 0
is_zero (negsuc n) = false

-- Check of a gate; `none` for no error.
pub check_gate : Gate → ℤ → Option Text → Option Text → Option GateError
check_gate g now price_response sequencer_response = elim (latest_round g.eth_usd price_response) [
  | none ↦ some feed_failed
  | some feed ↦
      if not (positive feed.answer)
      then some bad_price
      else if positive g.max_staleness && ltb_ℤ g.max_staleness (since now feed.updated_at)
      then some stale_price
      else elim (latest_round g.sequencer sequencer_response) [
        | none ↦ some sequencer_failed
        | some seq ↦
            if not (is_zero seq.answer)
            then some sequencer_down
            else if positive g.recovery_grace && ltb_ℤ (since now seq.started_at) g.recovery_grace
            then some recovering
            else none
      ]
]
