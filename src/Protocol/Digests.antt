-- ===== src/Protocol/Digests.antt =====
-- values.py's `Digest` and its canonical form.
use agentic_negotiators_sbx.Prelude.{
  Text, [], all_of, arith, length, map, ok, refl, true, ℕ, ◌∷◌, ◌≡◌,
}
use agentic_negotiators_sbx.Protocol.Values.{digest, is_digest, is_hex, lower}

lower_hex : (c : ℕ) → is_hex c ≡ true → (is_hex (lower c) ≡ true) × (lower (lower c) ≡ lower c)
lower_hex c h = ground arith

lower_hexes :
    (cs : Text)
    → all_of is_hex cs ≡ true
    → (all_of is_hex (map lower cs) ≡ true)
      × (map lower (map lower cs) ≡ map lower cs)
      × (length (map lower cs) ≡ length cs)
lower_hexes [] h = (refl, refl, refl)
lower_hexes (c ∷ cs) h = ground (arith, lower_hex c, lower_hexes cs)

-- A digest is its own canonical form: what one is constructed from it is the same digest.
pub digest_idempotent : (t d : Text) → digest t ≡ ok d → digest d ≡ ok d
unfolding digest is_digest
digest_idempotent [] d h = cc
digest_idempotent (a ∷ []) d h = cc
digest_idempotent (a ∷ (b ∷ cs)) d h = ground (arith, lower_hexes cs)
