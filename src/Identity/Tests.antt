-- ===== src/Identity/Tests.antt =====
-- The identities of two producers.
use object_database.Prelude.{ℕ, ◌+◌, ◌*◌, ◌≤◌, ◌<◌, ◌≡◌, arith}
use object_database.Identity.{init, identity_block_size, nth, nth-injective}

nth-injective_example :
    ((nth 2 (init 3) ≡ nth 2 (init 4)) → (◌≡◌ {A = ℕ} 3 4) × (◌≡◌ {A = ℕ} 2 2))
    × (3 * identity_block_size ≤ nth 2 (init 3))
    × (nth 2 (init 3) < (3 + 1) * identity_block_size)
nth-injective_example = nth-injective 3 4 2 2 (omega arith) (omega arith)
