-- ===== src/Pools/Logs.antt =====
-- go/internal/pools/pools.go: eth_getLogs over a block range in bounded chunks.
pub mod Reported
pub mod Tiling
pub mod Accounting
use titanarb_engine.Base.{
  ℕ, zero, suc, ◌+◌, ◌-◌, ◌*◌, ◌/◌, ◌%◌, ◌≤◌, ◌<◌, ◌≡◌, Bool, true, false, ◌&&◌, ◌||◌, Option, none,
  some, List, [], ◌∷◌, ◌++◌, Text, bytes, ltb, leb, ◌==◌, if◌then◌else◌, u64, to_lower, text_eq,
  text_mem, equal_fold, trim_space, parse_uint, length, take, drop,
}
use titanarb_engine.Dex.{trim_0x, hex_value, decode_hex, word_int, word_uint}
use titanarb_engine.Pools.{Swap}

abbrev pub default_chunk : ℕ
default_chunk = 5

abbrev pub max_chunk : ℕ
max_chunk = 10000

-- `raw` is the value of TITANARB_GETLOGS_BLOCK_CHUNK_SIZE.
unfoldable pub chunk_size_from_env : Text → ℕ
chunk_size_from_env raw = elim (parse_uint (trim_space raw)) [
  | none ↦ default_chunk
  | some n ↦ if n == 0 then default_chunk else if ltb max_chunk n then max_chunk else n
]

-- The discoverer's own setting, 0 where none was made.
unfoldable pub get_logs_chunk_size : ℕ → ℕ
get_logs_chunk_size n = if n == 0 then default_chunk else n

pub record LogEntry : Type 0 where
  pub address : Text
  pub payload : Text
  pub topics : List Text
  pub block_number : Text

pub record LogQueryStats : Type 0 where
  pub chunks_attempted : ℕ
  pub chunks_succeeded : ℕ
  pub chunks_failed : ℕ
  pub blocks_scanned : ℕ

pub data ScanError : Type 0 where
  unsupported : ScanError
  cancelled : ScanError
  call_failed : ScanError

-- What a scan returns, with the ranges that it asked for and the swaps that it announced, each in
-- the order made.
pub record Scan : Type 0 where
  pub changed : List Text
  pub stats : LogQueryStats
  pub failure : Option ScanError
  pub requests : List (ℕ × ℕ)
  pub swaps : List Swap

-- changed[key] = struct{}{}
pub add_key : Text → List Text → List Text
add_key k m = if text_mem k m then m else m ++ k ∷ []

-- The loop over the entries of one response; `decode` is decodeSwapLog.
pub collect : (LogEntry → Option Swap) → List LogEntry → List Text → List Text
unfolding add_key
collect decode [] m = m
collect decode (e ∷ es) m =
    collect decode es (if length e.address == 0 then m else add_key (to_lower e.address) m)

pub decoded : (LogEntry → Option Swap) → List LogEntry → List Swap
decoded decode [] = []
decoded decode (e ∷ es) = elim (decode e) [
  | none ↦ decoded decode es
  | some s ↦ s ∷ decoded decode es
]

-- chunkStart + chunkSize - 1 in 64 bits, cut off at `toBlock`.
unfoldable pub chunk_end : ℕ → ℕ → ℕ → ℕ
chunk_end chunk to start =
    let e = (start + chunk + u64 - 1) % u64 in if ltb e start || ltb to e then to else e

abbrev attempt : ℕ → ℕ → Scan → Scan
attempt start end s = record s {
  stats = record s.stats {
    chunks_attempted = s.stats.chunks_attempted + 1;
    blocks_scanned = s.stats.blocks_scanned + (end - start + 1);
  };
  requests = s.requests ++ (start, end) ∷ [];
}

abbrev fail_chunk : Scan → Scan
fail_chunk s = record s {
  stats = record s.stats { chunks_failed = s.stats.chunks_failed + 1 };
  failure = some call_failed;
}

pub take_logs : (LogEntry → Option Swap) → List LogEntry → Scan → Scan
unfolding collect decoded
take_logs decode entries s = record s {
  stats = record s.stats { chunks_succeeded = s.stats.chunks_succeeded + 1 };
  changed = collect decode entries s.changed;
  swaps = s.swaps ++ decoded decode entries;
}

-- The environment of a scan: whether the context is cancelled when a chunk begins, by the number of
-- chunks attempted, the response to a range, and decodeSwapLog.
pub record Source : Type 0 where
  pub cancels : ℕ → Bool
  pub respond : ℕ → ℕ → Option (List LogEntry)
  pub decode : LogEntry → Option Swap

-- The loop over chunks; `none` if the fuel runs out.
pub scan_loop : Source → ℕ → ℕ → ℕ → ℕ → Scan → Option Scan
unfolding take_logs
scan_loop src chunk to zero start s = none
scan_loop src chunk to (suc f) start s =
    let end = chunk_end chunk to start in
    let tried = attempt start end s in
    elim (ltb to start || src.cancels s.stats.chunks_attempted) [
      | true ↦ if ltb to start then some s else some (record s { failure = some cancelled })
      | false ↦ elim (src.respond start end) [
        | none ↦ some (fail_chunk tried)
        | some entries ↦
            let got = take_logs src.decode entries tried in
            elim (end == to) [ true ↦ some got | false ↦ scan_loop src chunk to f (end + 1) got ]
      ]
    ]

abbrev pub no_stats : LogQueryStats
no_stats = record {
  chunks_attempted = 0;
  chunks_succeeded = 0;
  chunks_failed = 0;
  blocks_scanned = 0;
}

abbrev pub empty_scan : Scan
empty_scan = record { changed = []; stats = no_stats; failure = none; requests = []; swaps = [] }

-- if fromBlock == 0 || fromBlock > toBlock { fromBlock = toBlock }
abbrev pub start_block : ℕ → ℕ → ℕ
start_block from to = if from == 0 || ltb to from then to else from

-- ChangedPoolAddressesAtWithStats; `supported` says that the caller can query logs.
unfoldable pub changed_pools : Source → Bool → ℕ → List Text → ℕ → ℕ → Option Scan
unfolding scan_loop
changed_pools src supported chunk addresses from to =
    if length addresses == 0 || to == 0
    then some empty_scan
    else if supported
    then scan_loop src (get_logs_chunk_size chunk) to (to + 1) (start_block from to) empty_scan
    else some (record empty_scan { failure = some unsupported })

-- chunkTotal, and the number that StartGetLogs of the stage tracker announces.
pub chunk_total : ℕ → ℕ → ℕ → ℕ
chunk_total chunk from to = ((to - from + 1) + chunk - 1) / chunk

-- fmt.Sscanf(s, "0x%x", &block): the leading hexadecimal digits, 0 without any or above 64 bits.
scan_hex : ℕ → Bool → Text → Option ℕ
scan_hex acc seen [] = if seen then some acc else none
scan_hex acc seen (c ∷ s) = elim (hex_value c) [
  | none ↦ if seen then some acc else none
  | some d ↦ scan_hex (acc * 16 + d) true s
]

pub block_of : Text → ℕ
unfolding scan_hex
block_of s =
    if text_eq (take 2 s) (bytes "0x")
    then elim (scan_hex 0 false (drop 2 s)) [ none ↦ 0 | some n ↦ if ltb n u64 then n else 0 ]
    else 0

-- decodeSwapLog, for the Keccak topic of the Swap event.
abbrev has_topic : Text → List Text → Bool
has_topic topic [] = false
has_topic topic (t ∷ ts) = equal_fold t topic

unfoldable pub decode_swap_log : Text → LogEntry → Option Swap
unfolding block_of
decode_swap_log topic e =
    if has_topic topic e.topics
    then elim (decode_hex (trim_0x e.payload)) [
      | none ↦ none
      | some raw ↦
          if ltb (length raw) 128
          then none
          else some (record {
            pool = e.address;
            amount0 = word_int (take 32 raw);
            amount1 = word_int (take 32 (drop 32 raw));
            sqrt_price_x96 = word_uint (take 32 (drop 64 raw));
            liquidity = word_uint (take 32 (drop 96 raw));
            block = block_of e.block_number;
          })
    ]
    else none
