-- ===== src/Manager/Blocks.antt =====
-- The best block of `LiquidityManager` in src/manager.rs over blocks that are connected and
-- disconnected.
use lightning_liquidity.Base.{ℕ, ◌+◌, ◌^◌, ◌<◌, ◌≡◌, some, arith}
use lightning_liquidity.World.{World, done, panicked}
use lightning_liquidity.Manager.{Manager, BestBlock}
use lightning_liquidity.Manager.Chain.{
  Header, height_before, filtered_block_connected, block_disconnected, best_block_updated,
  transactions_confirmed,
}

connected_at :
    (w : World Manager) (b : BestBlock) (header : Header) (height : ℕ)
    → w.handler.best_block ≡ some b
    → (filtered_block_connected w header height).1 ≡ done
    → b.height ≡ height_before height
unfolding filtered_block_connected
connected_at w b header height e k = ground arith

filtered_block_connected_keeps :
    (w : World Manager) (header : Header) (height : ℕ)
    → (filtered_block_connected w header height).0 ≡ w
unfolding filtered_block_connected best_block_updated transactions_confirmed
filtered_block_connected_keeps w header height = ground arith

unexpected_height :
    (w : World Manager) (b : BestBlock) (header : Header) (height : ℕ)
    → w.handler.best_block ≡ some b
    → height < 2 ^ 32
    → b.height ≡ height_before height
    → (filtered_block_connected w header (height + 1)).1 ≡ panicked
unfolding filtered_block_connected height_before
unexpected_height w b header height e k t = ground arith

-- With a best block configured, once a block was connected without a panic, connecting any block at
-- the next height panics: the best block is not moved to the connected one.
pub next_block_panics :
    (w : World Manager) (b : BestBlock) (header header' : Header) (height : ℕ)
    → w.handler.best_block ≡ some b
    → height < 2 ^ 32
    → (filtered_block_connected w header height).1 ≡ done
    → (filtered_block_connected (filtered_block_connected w header height).0 header' (height + 1)).1
      ≡ panicked
next_block_panics w b header header' height e k c =
    rw (filtered_block_connected_keeps w header height)
      (unexpected_height w b header' height e k (connected_at w b header height e c))

-- A block that was disconnected without a panic, where a best block is configured, has its parent
-- as the best block, and can be connected again.
pub disconnected_block_reconnects :
    (w : World Manager) (b : BestBlock) (header : Header) (height : ℕ)
    → w.handler.best_block ≡ some b
    → (block_disconnected w header height).1 ≡ done
    → let w' = (block_disconnected w header height).0 in
      (w'.handler.best_block
        ≡ some (record { block_hash = header.prev_blockhash; height = height_before height }))
      × ((filtered_block_connected w' header height).1 ≡ done)
unfolding block_disconnected filtered_block_connected
disconnected_block_reconnects w b header height e k = ground arith
