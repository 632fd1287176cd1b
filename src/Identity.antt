-- ===== src/Identity.antt =====
-- `IdentityProducer` of object_database/identity.py: blocks of object identities, one for each root.
mod Tests
use object_database.Prelude.{
  ℕ, zero, suc, ◌+◌, ◌*◌, ◌≤◌, ◌<◌, ◌≡◌, ◌≢◌, refl, arith, List, [], ◌∷◌, length,
}

abbrev pub identity_block_size : ℕ
identity_block_size = 100000000

pub record IdentityProducer : Type 0 where
  pub ix : ℕ
  pub count : ℕ

unfoldable pub init : ℕ → IdentityProducer
init ix = record { ix = ix; count = 0 }

-- createIdentity, which holds the producer's lock while it counts.
unfoldable pub create_identity : IdentityProducer → IdentityProducer × ℕ
create_identity p = (record p { count = p.count + 1 }, p.ix * identity_block_size + p.count)

-- The producer after so many calls, and the identity that the next one returns.
unfoldable pub after : ℕ → IdentityProducer → IdentityProducer
unfolding create_identity
after zero p = p
after (suc k) p = (create_identity (after k p)).0

unfoldable pub nth : ℕ → IdentityProducer → ℕ
unfolding after create_identity
nth k p = (create_identity (after k p)).1

after-init : (a k : ℕ) → ((after k (init a)).ix ≡ a) × ((after k (init a)).count ≡ k)
unfolding after create_identity init
after-init a zero = (refl, refl)
after-init a (suc k) = ground (arith, after-init a k)

nth_lem : (a k : ℕ) → nth k (init a) ≡ a * identity_block_size + k
unfolding nth create_identity
nth_lem a k = omega (arith, after-init a k)

-- Of the identities that new producers of two roots give, each in its first `identityBlockSize` calls, any two
-- that are equal come from the same root and the same call, and all those of one root lie in its
-- own block.
pub nth-injective :
    (a b i j : ℕ)
    → i < identity_block_size
    → j < identity_block_size
    → ((nth i (init a) ≡ nth j (init b)) → (a ≡ b) × (i ≡ j))
      × (a * identity_block_size ≤ nth i (init a))
      × (nth i (init a) < (a + 1) * identity_block_size)
unfolding nth create_identity
nth-injective a b i j h k = (
  (λ e. omega (arith, after-init a i, after-init b j, nth_lem a i, nth_lem b j, e)),
  omega (arith, nth_lem a i),
  omega (arith, nth_lem a i, h),
)
