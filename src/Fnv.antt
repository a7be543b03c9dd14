-- ===== src/Fnv.antt =====
-- The FNV-1 hash over 32 bits that chooses a slot: bridge/mlink/map.go, and the same loop in
-- bridge/mlink/segment.go and app/temporary/linkhub/concurrent/bucket.go.
use Prim.Native.Nat.{bit_xor}
use ssoc_broker.Base.{ℕ, ◌*◌, ◌%◌, ◌^◌, ◌<◌, [], ◌∷◌, arith, Text, All}
use ssoc_broker.Base.Bits.{bit_xor-lt}

-- The body of `for i := 0; i < len(key); i++`, over the bytes left; `hash *= prime32` wraps.
unfoldable pub fnv32_loop : ℕ → Text → ℕ
fnv32_loop hash [] = hash
fnv32_loop hash (c ∷ key) = fnv32_loop (bit_xor (hash * 16777619 % 2 ^ 32) c) key

unfoldable pub fnv32 : Text → ℕ
unfolding fnv32_loop
fnv32 key = fnv32_loop 2166136261 key

fnv32_loop-lt :
    (hash : ℕ) (key : Text) → hash < 2 ^ 32 → All (λ c. c < 256) key → fnv32_loop hash key < 2 ^ 32
unfolding fnv32_loop
fnv32_loop-lt hash [] h b = h
fnv32_loop-lt hash (c ∷ key) h b =
    fnv32_loop-lt (bit_xor (hash * 16777619 % 2 ^ 32) c) key
      (bit_xor-lt 32 (hash * 16777619 % 2 ^ 32) c (omega arith) (omega arith)) b.1

-- The hash of a sequence of bytes is below 2 ^ 32.
pub fnv32-lt : (key : Text) → All (λ c. c < 256) key → fnv32 key < 2 ^ 32
unfolding fnv32
fnv32-lt key b = fnv32_loop-lt 2166136261 key (omega arith) b
