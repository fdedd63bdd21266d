-- ===== src/Fai/Sync.antt =====
-- `syncHistoricalBlocks` (internal/fai/service.go): the blocks of the last hour are asked for in batches. The
-- client of the chain is a parameter: the logs from one block to another, or an error. The loop is on fuel.
use enchanted_proxy.Prelude.{
  ltb, leb, ◌+◌, ◌-◌, ◌*◌, ◌%◌, ◌^◌, ◌≤◌, ◌<◌, ℕ, zero, suc, true, false, List, [], ◌∷◌, ◌++◌,
  Option, none, some, if◌then◌else◌, ◌≡◌, refl, sym, ap, ◌∙◌, arith, Bool-cases, inl, inr,
  append_assoc,
}
use enchanted_proxy.Fai.Event.{Log}
use enchanted_proxy.Fai.Service.{Environment, Database, handle_payment_received_event, handle_all}

pub data SyncResult : Type 0 where
  synced : Database → ℕ → SyncResult
  sync_failed : Database → SyncResult
  unfinished : SyncResult

abbrev pub batch_size : ℕ
batch_size = 500

-- uint64
abbrev pub add64 : ℕ → ℕ → ℕ
add64 a b = (a + b) % 2 ^ 64

abbrev pub from_block : ℕ → ℕ
from_block current = if ltb 1_800 current then current - 1_800 else current

abbrev pub batch_end : ℕ → ℕ → ℕ
batch_end current start = let end = add64 start 499 in if ltb current end then current else end

abbrev pub FilterLogs : Type 0
FilterLogs = ℕ → ℕ → Option (List Log)

unfoldable pub sync_batches : ℕ → FilterLogs → Environment → ℕ → ℕ → Database → SyncResult
sync_batches zero filter env current start d = unfinished
sync_batches (suc fuel) filter env current start d = elim (leb start current) [
  | false ↦ synced d current
  | true ↦ elim (filter start (batch_end current start)) [
    | none ↦ sync_failed d
    | some logs ↦
        sync_batches fuel filter env current (add64 start batch_size) (handle_all env logs d)
  ]
]

-- With the number of the current block, if the client tells it. Five rounds: 1801 blocks are four batches.
unfoldable pub sync_historical_blocks : FilterLogs → Environment → Option ℕ → Database → SyncResult
sync_historical_blocks filter env none d = sync_failed d
sync_historical_blocks filter env (some current) d =
    sync_batches 5 filter env current (from_block current) d

-- The logs of so many blocks from one on.
abbrev pub logs_from : (ℕ → List Log) → ℕ → ℕ → List Log
logs_from logs_of start zero = []
logs_from logs_of start (suc n) = logs_of start ++ logs_from logs_of (start + 1) n

logs_from-add :
    (logs_of : ℕ → List Log) (m n k start rest : ℕ)
    → k ≡ m + n
    → rest ≡ start + m
    → logs_from logs_of start k ≡ logs_from logs_of start m ++ logs_from logs_of rest n
logs_from-add logs_of zero n k start rest e f =
    let e' : k ≡ n = omega arith in let f' : rest ≡ start = omega arith in rw (e', f') refl
logs_from-add logs_of (suc m) n zero start rest e f = absurd (omega arith)
logs_from-add logs_of (suc m) n (suc k) start rest e f =
    rw (logs_from-add logs_of m n k (start + 1) rest (omega arith) (omega arith)) (
      sym
        (append_assoc (logs_of start) (logs_from logs_of (start + 1) m) (logs_from logs_of rest n)))

handle_all-nil : (env : Environment) (d : Database) → d ≡ handle_all env [] d
unfolding handle_all
handle_all-nil env d = refl

handle_all-append :
    (env : Environment) (xs ys : List Log) (d : Database)
    → handle_all env (xs ++ ys) d ≡ handle_all env ys (handle_all env xs d)
unfolding handle_all
handle_all-append env [] ys d = refl
handle_all-append env (x ∷ xs) ys d =
    handle_all-append env xs ys (handle_payment_received_event env x d).0

-- The client returns the logs of the blocks that it is asked for.
abbrev pub Answers : (ℕ → List Log) → FilterLogs → Type 0
Answers logs_of filter =
    (start n : ℕ) → filter start (start + n) ≡ some (logs_from logs_of start (suc n))

batch_end-whole :
    (current start : ℕ)
    → current + 500 < 2 ^ 64
    → start + 499 ≤ current
    → batch_end current start ≡ start + 499
batch_end-whole current start small h = ground arith

batch_end-last :
    (current start : ℕ)
    → current + 500 < 2 ^ 64
    → start ≤ current
    → current < start + 499
    → batch_end current start ≡ current
batch_end-last current start small h k = ground arith

sync_batches-step :
    (fuel : ℕ) (filter : FilterLogs) (env : Environment) (current start end : ℕ) (logs : List Log)
    (d : Database)
    → leb start current ≡ true
    → batch_end current start ≡ end
    → filter start end ≡ some logs
    → sync_batches (suc fuel) filter env current start d
      ≡ sync_batches fuel filter env current (add64 start batch_size) (handle_all env logs d)
unfolding sync_batches
sync_batches-step fuel filter env current start end logs d on e f =
    rw (on, sync_batches) (rw e (rw f refl))

sync_batches-over :
    (fuel : ℕ) (filter : FilterLogs) (env : Environment) (current start : ℕ) (d : Database)
    → leb start current ≡ false
    → sync_batches (suc fuel) filter env current start d ≡ synced d current
unfolding sync_batches
sync_batches-over fuel filter env current start d off = rw (off, sync_batches) refl

sync_batches-stop :
    (fuel : ℕ) (filter : FilterLogs) (env : Environment) (current start : ℕ) (d : Database)
    → 0 < fuel
    → leb start current ≡ false
    → sync_batches fuel filter env current start d ≡ synced d current
sync_batches-stop zero filter env current start d pos off = absurd (omega arith)
sync_batches-stop (suc fuel) filter env current start d pos off =
    sync_batches-over fuel filter env current start d off

add64-small :
    (current start : ℕ) → current + 500 < 2 ^ 64 → start ≤ current → add64 start 500 ≡ start + 500
add64-small current start small h = omega arith

module _ (logs_of : ℕ → List Log) (filter : FilterLogs) (answers : Answers logs_of filter)
    (env : Environment) (current : ℕ) (small : current + 500 < 2 ^ 64) where
  answer :
      (start end n : ℕ)
      → end + 1 ≡ start + n
      → 0 < n
      → filter start end ≡ some (logs_from logs_of start n)
  answer start end zero e h = absurd (omega arith)
  answer start end (suc n) e h = ap (filter start) (omega (arith, e)) ∙ answers start n

  sync_batches-all :
      (fuel n start : ℕ) (d : Database)
      → n + start ≡ current + 1
      → n + 500 ≤ 500 * fuel
      → sync_batches fuel filter env current start d
        ≡ synced (handle_all env (logs_from logs_of start n) d) current
  sync_batches-all zero n start d e h = absurd (omega arith)
  sync_batches-all (suc fuel) zero start d e h =
      sync_batches-over fuel filter env current start d (ground arith)
      ∙ ap (λ (d' : Database). synced d' current) (handle_all-nil env d)
  sync_batches-all (suc fuel) (suc n) start d e h = elim (Bool-cases (ltb n 499)) [
    | inl last ↦
        sync_batches-step fuel filter env current start current (logs_from logs_of start (suc n)) d
          (ground arith) (batch_end-last current start small (omega arith) (ground (arith, last)))
          (answer start current (suc n) (omega arith) (omega arith))
        ∙ sync_batches-stop fuel filter env current (add64 start 500)
            (handle_all env (logs_from logs_of start (suc n)) d) (omega arith)
            (ground (arith, add64-small current start small (omega arith)))
    | inr whole ↦
        let long : 499 ≤ n = ground (arith, whole) in
        let moved = add64-small current start small (omega arith) in
        sync_batches-step fuel filter env current start (start + 499) (logs_from logs_of start 500)
          d (ground arith) (batch_end-whole current start small (omega arith))
          (answer start (start + 499) 500 (omega arith) (omega arith))
        ∙ sync_batches-all fuel (suc n - 500) (add64 start 500)
            (handle_all env (logs_from logs_of start 500) d) (omega (arith, moved)) (omega arith)
        ∙ ap (λ (d' : Database). synced d' current)
            (sym (
              ap (λ (logs : List Log). handle_all env logs d)
                (logs_from-add logs_of 500 (suc n - 500) (suc n) start (add64 start 500)
                  (omega arith) moved)
              ∙ handle_all-append env (logs_from logs_of start 500)
                  (logs_from logs_of (add64 start 500) (suc n - 500)) d))
  ]

abbrev pub looked_at : ℕ → ℕ
looked_at current = if ltb 1_800 current then 1_801 else 1

-- If the client returns the logs of the blocks that it is asked for, and the number of the current block is not
-- within 500 of the end of its type, then the sync ends and has handled, in their order, exactly the events of
-- the last 1801 blocks, the current one included, each of them once; of the current block alone, if the
-- chain has no more than 1800.
pub sync_historical_blocks-all :
    (logs_of : ℕ → List Log) (filter : FilterLogs) (env : Environment) (current : ℕ) (d : Database)
    → Answers logs_of filter
    → current + 500 < 2 ^ 64
    → let n = looked_at current in
      sync_historical_blocks filter env (some current) d
      ≡ synced (handle_all env (logs_from logs_of (current + 1 - n) n) d) current
unfolding sync_historical_blocks
sync_historical_blocks-all logs_of filter env current d answers small =
    sync_batches-all logs_of filter answers env current small 5 (looked_at current)
      (from_block current) d (ground arith) (ground arith)
    ∙ ap
        (λ (start : ℕ).
          synced (handle_all env (logs_from logs_of start (looked_at current)) d) current)
        (ground arith)
