-- ===== src/RateLimiter/Hash.antt =====
-- ratelimiter/token_bucket.go: shardFor, with the FNV-1a hash of hash/fnv.
use Prim.Native.Nat.{bit_and, bit_xor, bit_and-bitwise, digits, min}
use peakshield.Prelude.{
  ℕ, zero, suc, ◌+◌, ◌-◌, ◌*◌, ◌/◌, ◌%◌, ◌^◌, ◌≤◌, ◌<◌, ◌≡◌, refl, ap, ◌∙◌, [], ◌∷◌, arith,
}
use native.Mathlib.Nat.{div-add-mod, mod-lt, mod-eq_of_lt, add-mul-mod_self_right, zero-mod}
use mathlib.Core.Path.{◌≡⟨◌⟩◌, ◌∎}
use peakshield.Prelude.Bytes.{Bytes}

abbrev pub num_shards : ℕ
num_shards = 256

abbrev shard_mask : ℕ
shard_mask = num_shards - 1

-- fnv.New32a, Write and Sum32, from the state `h`
unfoldable pub fnv32a : ℕ → Bytes → ℕ
fnv32a h [] = h
fnv32a h (c ∷ s) = fnv32a (bit_xor h c * 16777619 % 2 ^ 32) s

unfoldable pub shard_for : Bytes → ℕ
unfolding fnv32a
shard_for ip = bit_and (fnv32a 2166136261 ip) shard_mask

-- The digits that `bit_and` stands for, under a mask.
abbrev masked : ℕ → ℕ → ℕ → ℕ
masked fuel a mask = digits (λ _. zero) min fuel a mask

-- The mask picks the remainder by `modulus`.
abbrev Picks : ℕ → ℕ → Type 0
Picks mask modulus = (fuel a : ℕ) → a ≤ fuel → masked fuel a mask ≡ a % modulus

split_digits : (a k : ℕ) → a ≡ 2 * (a / 2 % k) + a % 2 + a / 2 / k * (2 * k)
split_digits a k = omega (arith, div-add-mod (a / 2) k)

mod_double : (a k : ℕ) → 0 < k → a % (2 * k) ≡ 2 * (a / 2 % k) + a % 2
mod_double a k h =
    let low : 2 * (a / 2 % k) + a % 2 < 2 * k = omega (arith, mod-lt (a / 2) h) in
    a % (2 * k)
    ≡⟨ ap (λ x. x % (2 * k)) (split_digits a k) ⟩
      (2 * (a / 2 % k) + a % 2 + a / 2 / k * (2 * k)) % (2 * k)
    ≡⟨ add-mul-mod_self_right (2 * (a / 2 % k) + a % 2) (a / 2 / k) (2 * k) ⟩
      (2 * (a / 2 % k) + a % 2) % (2 * k)
    ≡⟨ mod-eq_of_lt low ⟩ 2 * (a / 2 % k) + a % 2 ∎

Picks-one : Picks 0 1
Picks-one zero zero h = refl
Picks-one zero (suc a) h = absurd (omega arith)
Picks-one (suc n) zero h = refl
Picks-one (suc n) (suc a) h = omega (arith, Picks-one n (suc a / 2) (omega arith))

Picks-double : (m k : ℕ) → 0 < k → Picks m k → Picks (2 * m + 1) (2 * k)
Picks-double m k h p zero zero le = omega (arith, zero-mod (2 * k))
Picks-double m k h p zero (suc a) le = absurd (omega arith)
Picks-double m k h p (suc n) zero le = omega (arith, zero-mod (2 * k))
Picks-double m k h p (suc n) (suc a) le =
    let half : (2 * m + 1) / 2 ≡ m = omega arith in
    rw half (omega (arith, p n (suc a / 2) (omega arith), mod_double (suc a) k h))

Picks-byte : Picks 255 256
Picks-byte = Picks-double 127 128 (omega arith) (
    Picks-double 63 64 (omega arith) (
      Picks-double 31 32 (omega arith) (
        Picks-double 15 16 (omega arith) (
          Picks-double 7 8 (omega arith) (
            Picks-double 3 4 (omega arith)
              (Picks-double 1 2 (omega arith) (Picks-double 0 1 (omega arith) Picks-one)))))))

-- hash & shardMask is hash % numShards.
bit_and_mask : (a : ℕ) → bit_and a shard_mask ≡ a % num_shards
bit_and_mask a = bit_and-bitwise a shard_mask ∙ Picks-byte a a (omega arith)

-- Every address has one of the 256 shards: the hash modulo their number.
shard_for_lem :
    (ip : Bytes) → (shard_for ip ≡ fnv32a 2166136261 ip % num_shards) × (shard_for ip < num_shards)
unfolding shard_for
shard_for_lem ip =
    (bit_and_mask (fnv32a 2166136261 ip), omega (arith, bit_and_mask (fnv32a 2166136261 ip)))
