-- ===== src/Safety/Closed.antt =====
-- When the safety gate opens (oracle.go).
use titanarb_engine.Base.{
  ℕ, ◌<◌, ◌≡◌, ◌↔◌, inl, inr, true, Option, none, some, Text, arith, Option-cases,
}
use titanarb_engine.Base.Int.{
  ℤ, pos, negsuc, ◌+ℤ◌, ◌-ℤ◌, ◌*ℤ◌, ◌≤ℤ◌, +ℤ_cancel, wrap_int64, wrap_int64_id,
}
use titanarb_engine.Pools.{positive}
use titanarb_engine.Safety.{
  Gate, FeedRound, latest_round, since, unix_time, unix_offset, saturate, is_zero, check_gate,
}

-- Both feeds answer; the price is positive and recent, the sequencer is up and has been for long.
pub record IsOpen (g : Gate) (now : ℤ) (price_response sequencer_response : Option Text)
    : Type 0 where
  pub feed : FeedRound
  pub priced : latest_round g.eth_usd price_response ≡ some feed
  pub positive_price : positive feed.answer ≡ true
  pub recent : positive g.max_staleness ≡ true → since now feed.updated_at ≤ℤ g.max_staleness
  pub seq : FeedRound
  pub sequenced : latest_round g.sequencer sequencer_response ≡ some seq
  pub up : is_zero seq.answer ≡ true
  pub settled : positive g.recovery_grace ≡ true → g.recovery_grace ≤ℤ since now seq.started_at

module _ (g : Gate) (now : ℤ) (price_response sequencer_response : Option Text) where
  check_gate-IsOpen :
      check_gate g now price_response sequencer_response ≡ none
      → IsOpen g now price_response sequencer_response
  unfolding check_gate
  check_gate-IsOpen e = elim (Option-cases (latest_round g.eth_usd price_response)) [
    | inl lost ↦ let e' = rw (lost, check_gate) at e in absurd (ground arith)
    | inr (feed, p) ↦ elim (Option-cases (latest_round g.sequencer sequencer_response)) [
      | inl lost ↦ let e' = rw (p, lost, check_gate) at e in absurd (ground arith)
      | inr (seq, s) ↦
          let e' = rw (p, s, check_gate) at e in
          record {
            feed = feed;
            priced = p;
            positive_price = ground arith;
            recent = λ h. ground arith;
            seq = seq;
            sequenced = s;
            up = ground arith;
            settled = λ h. ground arith;
          }
    ]
  ]

  IsOpen-check_gate :
      IsOpen g now price_response sequencer_response
      → check_gate g now price_response sequencer_response ≡ none
  unfolding check_gate
  IsOpen-check_gate o =
      rw (o.priced, o.sequenced, check_gate)
        (ground (arith, o.positive_price, o.recent, o.up, o.settled))

saturate_id :
    (z : ℤ) → negsuc 9223372036854775807 ≤ℤ z → z ≤ℤ pos 9223372036854775807 → saturate z ≡ z
unfolding saturate
saturate_id z low high = ground arith

-- In the usual range a time difference is exact.
since_exact :
    (now : ℤ) (n : ℕ)
    → n < 9000000000000000000
    → negsuc 9223372036854775807 ≤ℤ now -ℤ pos n *ℤ pos 1000000000
    → now -ℤ pos n *ℤ pos 1000000000 ≤ℤ pos 9223372036854775807
    → since now (pos n) ≡ now -ℤ pos n *ℤ pos 1000000000
unfolding since unix_time ◌+ℤ◌
since_exact now n small low high =
    let kept : wrap_int64 (pos n +ℤ pos unix_offset) ≡ pos n +ℤ pos unix_offset =
      wrap_int64_id (pos n +ℤ pos unix_offset) (ground arith) (ground arith) in
    let same : pos n +ℤ pos unix_offset -ℤ pos unix_offset ≡ pos n =
      +ℤ_cancel (pos n) (pos unix_offset) in
    let sec : unix_time (pos n) ≡ pos n = rw (kept, unix_time) same in
    rw (sec, since) (saturate_id (now -ℤ pos n *ℤ pos 1000000000) low high)

-- The gate fails closed: it lets a candidate pass exactly when both feeds gave a whole response, the
-- price is positive and, if there is a limit, recent enough, and the sequencer is up and, if there is
-- a grace period, has been for that long. Times are compared as time.Unix and Sub give them, with
-- seconds that wrap at 64 bits and durations that stop at the bounds of 64 bits.
pub check_gate_iff :
    (g : Gate) (now : ℤ) (price_response sequencer_response : Option Text)
    → (check_gate g now price_response sequencer_response ≡ none)
      ↔ IsOpen g now price_response sequencer_response
check_gate_iff g now price_response sequencer_response = (
  check_gate-IsOpen g now price_response sequencer_response,
  IsOpen-check_gate g now price_response sequencer_response,
)
