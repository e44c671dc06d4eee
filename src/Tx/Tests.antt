-- ===== src/Tx/Tests.antt =====
-- A receipt at the third poll.
use titanarb_engine.Base.{
  ℕ, ◌<◌, ◌≡◌, refl, false, Bool, none, some, bytes, arith, text_eq, if◌then◌else◌, to_lower, ltb,
}
use titanarb_engine.Tx.{
  Poll, absent, present, ReceiptResult, wait_receipt, classify, replacement_underpriced, reverted,
}
use titanarb_engine.Tx.Receipts.{wait_receipt_lem}

abbrev polls : ℕ → Poll
polls n = if ltb n 2 then absent else present (bytes "0x0")

abbrev never : ℕ → Bool
never n = false

underpriced_classified :
    classify (some (bytes "Replacement transaction underpriced")) ≡ replacement_underpriced
unfolding classify to_lower
underpriced_classified = refl

polls-absent : (i : ℕ) → i < 2 → polls i ≡ absent
polls-absent i h = ground arith

wait_receipt_lem_example :
    (r : ReceiptResult) × (wait_receipt polls never 3 0 ≡ some r)
    × (r.status ≡ some (bytes "0x0"))
    × (r.failed ≡ text_eq (bytes "0x0") (bytes "0x0"))
    × (r.classification ≡ (if text_eq (bytes "0x0") (bytes "0x0") then some reverted else none))
wait_receipt_lem_example =
    wait_receipt_lem polls never 2 (bytes "0x0") polls-absent (λ i h. refl) refl
