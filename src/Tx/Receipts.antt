-- ===== src/Tx/Receipts.antt =====
-- Waiting for a receipt (WaitReceipt of manager.go).
use titanarb_engine.Base.{
  ℕ, zero, suc, ◌+◌, ◌≤◌, ◌<◌, ◌≡◌, refl, ◌∙◌, inl, inr, Bool, false, none, some, Text, arith,
  bytes, Bool-cases, if◌then◌else◌, text_eq,
}
use titanarb_engine.Tx.{
  Poll, absent, present, ReceiptResult, receipt_result, wait_receipt, reverted,
}

wait_receipt-skip :
    (polls : ℕ → Poll) (ended : ℕ → Bool) (fuel n : ℕ)
    → polls n ≡ absent
    → ended n ≡ false
    → wait_receipt polls ended (suc fuel) n ≡ wait_receipt polls ended fuel (suc n)
unfolding wait_receipt
wait_receipt-skip polls ended fuel n a e = rw (a, e, wait_receipt)

wait_receipt-from :
    (polls : ℕ → Poll) (ended : ℕ → Bool) (k n fuel : ℕ) (status : Text)
    → ((i : ℕ) → n ≤ i → i < n + k → polls i ≡ absent)
    → ((i : ℕ) → n ≤ i → i < n + k → ended i ≡ false)
    → polls (n + k) ≡ present status
    → k < fuel
    → wait_receipt polls ended fuel n ≡ some (receipt_result status)
unfolding wait_receipt
wait_receipt-from polls ended k n zero status a e p h = absurd (omega arith)
wait_receipt-from polls ended zero n (suc fuel) status a e p h =
    let here : n + 0 ≡ n = omega arith in
    let q : polls n ≡ present status = rw here at p in rw (q, wait_receipt)
wait_receipt-from polls ended (suc k) n (suc fuel) status a e p h =
    let there : n + suc k ≡ suc n + k = omega arith in
    wait_receipt-skip polls ended fuel n (a n (omega arith) (omega arith))
      (e n (omega arith) (omega arith))
    ∙ wait_receipt-from polls ended k (suc n) fuel status
        (λ i low high. a i (omega arith) (omega arith))
        (λ i low high. e i (omega arith) (omega arith)) (rw there at p) (omega arith)

-- The first receipt decides: when the receipt comes at the `k`th poll, after polls without one, and the
-- context has not ended before, waiting returns it after k + 1 polls. It is a failure, classified as
-- reverted, exactly if its status is 0x0.
pub wait_receipt_lem :
    (polls : ℕ → Poll) (ended : ℕ → Bool) (k : ℕ) (status : Text)
    → ((i : ℕ) → i < k → polls i ≡ absent)
    → ((i : ℕ) → i < k → ended i ≡ false)
    → polls k ≡ present status
    → (r : ReceiptResult) × (wait_receipt polls ended (suc k) 0 ≡ some r)
      × (r.status ≡ some status)
      × (r.failed ≡ text_eq status (bytes "0x0"))
      × (r.classification ≡ (if text_eq status (bytes "0x0") then some reverted else none))
unfolding receipt_result
wait_receipt_lem polls ended k status a e p =
    let found =
      wait_receipt-from polls ended k 0 (suc k) status (λ i low high. a i (omega arith))
        (λ i low high. e i (omega arith)) (let z : 0 + k ≡ k = omega arith in rw z p)
        (omega arith) in
    let (kept, verdict, class) = parts in (receipt_result status, found, kept, verdict, class)
  where
    parts :
        ((receipt_result status).status ≡ some status)
        × ((receipt_result status).failed ≡ text_eq status (bytes "0x0"))
        × ((receipt_result status).classification
            ≡ (if text_eq status (bytes "0x0") then some reverted else none))
    parts = elim (Bool-cases (text_eq status (bytes "0x0"))) [
      | inl bad ↦ rw (bad, receipt_result) (refl, refl, refl)
      | inr good ↦ rw (good, receipt_result) (refl, refl, refl)
    ]
