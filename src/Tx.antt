-- ===== src/Tx.antt =====
-- go/internal/tx/manager.go: the classes of errors, and waiting for a receipt.
pub mod Receipts
mod Tests
use titanarb_engine.Base.{
  ℕ, zero, suc, ◌+◌, ◌≡◌, Bool, true, false, ◌&&◌, ◌||◌, Option, none, some, List, [], ◌∷◌, Text,
  bytes, if◌then◌else◌, ◌==◌, to_lower, text_eq, contains,
}

pub data Classification : Type 0 where
  nonce_too_low replacement_underpriced timed_out reverted out_of_gas unknown : Classification

-- Classify, for the message of an error.
pub classify : Option Text → Classification
unfolding contains
classify none = unknown
classify (some message) =
    let s = to_lower message in
    if contains (bytes "nonce too low") s
    then nonce_too_low
    else if contains (bytes "replacement") s && contains (bytes "underpriced") s
    then replacement_underpriced
    else if contains (bytes "out of gas") s
    then out_of_gas
    else if contains (bytes "timeout") s || contains (bytes "deadline") s
    then timed_out
    else unknown

-- What one poll for the receipt gives: an error, no receipt yet, or a receipt with its status.
pub data Poll : Type 0 where
  poll_failed : Text → Poll
  absent : Poll
  present : Text → Poll

pub record ReceiptResult : Type 0 where
  pub status : Option Text
  pub classification : Option Classification
  pub failed : Bool

pub receipt_result : Text → ReceiptResult
receipt_result status =
    if text_eq status (bytes "0x0")
    then record { status = some status; classification = some reverted; failed = true }
    else record { status = some status; classification = none; failed = false }

-- WaitReceipt from the `n`th poll on, for the polls and for whether the context has ended when a tick
-- is awaited; `none` if the fuel runs out.
pub wait_receipt : (ℕ → Poll) → (ℕ → Bool) → ℕ → ℕ → Option ReceiptResult
unfolding classify receipt_result
wait_receipt polls ended zero n = none
wait_receipt polls ended (suc fuel) n =
    let rest = wait_receipt polls ended fuel (suc n) in
    elim (polls n) [
      | poll_failed message ↦
          some (record {
            status = none;
            classification = some (classify (some message));
            failed = true;
          })
      | present status ↦ some (receipt_result status)
      | absent ↦
          if ended n
          then some (record { status = none; classification = some timed_out; failed = true })
          else rest
    ]
