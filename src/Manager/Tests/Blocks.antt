-- ===== src/Manager/Tests/Blocks.antt =====
-- Blocks that src/manager.rs connects and disconnects.
use lightning_liquidity.Base.{◌≡◌, refl, some, arith}
use lightning_liquidity.World.{done, panicked}
use lightning_liquidity.Manager.Chain.{
  Header, height_before, filtered_block_connected, block_disconnected, best_block_updated,
  transactions_confirmed,
}
use lightning_liquidity.Manager.Blocks.{next_block_panics, disconnected_block_reconnects}
use lightning_liquidity.Manager.Tests.Data.{manager, top}

abbrev next : Header
next = record { block_hash = 80; prev_blockhash = 70 }

abbrev after_next : Header
after_next = record { block_hash = 90; prev_blockhash = 80 }

abbrev current : Header
current = record { block_hash = 70; prev_blockhash = 60 }

next_connects : (filtered_block_connected manager next 8).1 ≡ done
unfolding filtered_block_connected height_before best_block_updated transactions_confirmed
next_connects = refl

current_disconnects : (block_disconnected manager current 7).1 ≡ done
unfolding block_disconnected height_before
current_disconnects = refl

next_block_panics_example :
    (filtered_block_connected (filtered_block_connected manager next 8).0 after_next 9).1 ≡ panicked
next_block_panics_example =
    next_block_panics manager top next after_next 8 refl (omega arith) next_connects

disconnected_block_reconnects_example :
    let w' = (block_disconnected manager current 7).0 in
    (w'.handler.best_block ≡ some (record { block_hash = 60; height = height_before 7 }))
    × ((filtered_block_connected w' current 7).1 ≡ done)
disconnected_block_reconnects_example =
    disconnected_block_reconnects manager top current 7 refl current_disconnects
