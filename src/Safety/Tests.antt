-- ===== src/Safety/Tests.antt =====
-- A price of 2000 and a sequencer that is up.
use titanarb_engine.Base.{ℕ, ◌≡◌, ◌↔◌, refl, ◌++◌, none, some, Text, bytes}
use titanarb_engine.Base.Int.{pos, ◌+ℤ◌, wrap_int64, ◌-ℤ◌, ◌*ℤ◌}
use titanarb_engine.Dex.{encode_hex, fill_bytes, decode_words, word_int, word_uint}
use titanarb_engine.Safety.{Gate, latest_round, check_gate, since, unix_time, saturate, stale_price}
use titanarb_engine.Safety.Closed.{IsOpen, check_gate_iff}

abbrev gate : Gate
gate = record {
  eth_usd = bytes "0xe";
  sequencer = bytes "0x5";
  max_staleness = pos 3600000000000;
  recovery_grace = pos 60000000000;
}

-- latestRoundData: round, answer, start, update, round.
abbrev response : ℕ → ℕ → ℕ → Text
response answer started updated =
    bytes "0x"
    ++ encode_hex (
        fill_bytes 32 1
        ++ fill_bytes 32 answer
        ++ fill_bytes 32 started
        ++ fill_bytes 32 updated
        ++ fill_bytes 32 1)

gate_opens :
    check_gate gate
      (pos 5000000000000)
      (some (response 2000 1000 4000))
      (some (response 0 1000 1000))
    ≡ none
unfolding check_gate since unix_time saturate wrap_int64 ◌+ℤ◌ latest_round encode_hex fill_bytes
    decode_words word_int word_uint ◌-ℤ◌ ◌*ℤ◌
gate_opens = refl

gate_is_stale :
    check_gate gate
      (pos 9000000000000)
      (some (response 2000 1000 4000))
      (some (response 0 1000 1000))
    ≡ some stale_price
unfolding check_gate since unix_time saturate wrap_int64 ◌+ℤ◌ latest_round encode_hex fill_bytes
    decode_words word_int word_uint ◌-ℤ◌ ◌*ℤ◌
gate_is_stale = refl

check_gate_iff_example :
    (check_gate gate
        (pos 5000000000000)
        (some (response 2000 1000 4000))
        (some (response 0 1000 1000))
      ≡ none)
    ↔ IsOpen gate (pos 5000000000000) (some (response 2000 1000 4000)) (some (response 0 1000 1000))
check_gate_iff_example =
    check_gate_iff gate (pos 5000000000000) (some (response 2000 1000 4000))
      (some (response 0 1000 1000))
