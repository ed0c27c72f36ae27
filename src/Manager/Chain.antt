-- ===== src/Manager/Chain.antt =====
-- `Listen` and `Confirm` of `LiquidityManager` in src/manager.rs: blocks that are connected and
-- disconnected. `panicked` is an assertion that failed. Heights are `u32`.
use lightning_liquidity.Base.{
  ℕ, ◌+◌, ◌-◌, ◌^◌, ◌%◌, none, some, List, [], ◌&&◌, ◌==◌, if◌then◌else◌,
}
use lightning_liquidity.World.{World, done, panicked}
use lightning_liquidity.Manager.{Manager, Handled}

-- What the code reads of a block header: its hash and the hash of the block before it.
pub record Header : Type 0 where
  pub block_hash : ℕ
  pub prev_blockhash : ℕ

-- `height - 1` without overflow checks.
unfoldable pub height_before : ℕ → ℕ
height_before height = (height + 2 ^ 32 - 1) % 2 ^ 32

-- `best_block_updated` and `transactions_confirmed` have nothing but a TODO in them.
unfoldable pub best_block_updated : World Manager → Header → ℕ → World Manager
best_block_updated w header height = w

unfoldable pub transactions_confirmed : World Manager → Header → ℕ → World Manager
transactions_confirmed w header height = w

unfoldable pub transaction_unconfirmed : World Manager → ℕ → World Manager
transaction_unconfirmed w txid = w

unfoldable pub get_relevant_txids : World Manager → List ℕ
get_relevant_txids w = []

unfoldable pub filtered_block_connected : World Manager → Header → ℕ → Handled
unfolding height_before best_block_updated transactions_confirmed
filtered_block_connected w header height =
    let updated = best_block_updated (transactions_confirmed w header height) header height in
    elim w.handler.best_block [
      | none ↦ (updated, done)
      | some b ↦
          if (b.block_hash == header.prev_blockhash) && (b.height == height_before height)
          then (updated, done)
          else (w, panicked)
    ]

unfoldable pub block_disconnected : World Manager → Header → ℕ → Handled
unfolding height_before
block_disconnected w header height = elim w.handler.best_block [
  | none ↦ (w, done)
  | some b ↦
      if (b.block_hash == header.block_hash) && (b.height == height)
      then (
        record w {
          handler = record w.handler {
            best_block =
                some (record { block_hash = header.prev_blockhash; height = height_before height });
          };
        },
        done,
      )
      else (w, panicked)
]
