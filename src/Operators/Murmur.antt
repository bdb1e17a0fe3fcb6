-- ===== src/Operators/Murmur.antt =====
-- src/operator_registry.cpp: murmur3_x86_32 on the bytes of a text, and the bucket of a word.
use Prim.Native.Char.{Char, code}
use Prim.Native.String.{String}
use Prim.Native.Nat.{bit_xor}
use omle_runtime.Prelude.{
  ℕ, suc, ◌+◌, ◌-◌, ◌*◌, ◌/◌, ◌%◌, ◌^◌, List, [], ◌∷◌, length, ltb, ◌==◌, if◌then◌else◌, ◌++◌,
}
use omle_runtime.Prelude.Int.{ℤ, pos, negsuc}
use omle_runtime.Operators.{signed32}

-- The UTF-8 of a character.
unfoldable pub utf8 : Char → List ℕ
utf8 c =
    let n = code c in
    let low = λ (k : ℕ). 128 + n / 64 ^ k % 64 in
    if ltb n 128
    then n ∷ []
    else (if ltb n 2048
        then (192 + n / 64) ∷ low 0 ∷ []
        else (if ltb n 65536
            then (224 + n / 64 ^ 2) ∷ low 1 ∷ low 0 ∷ []
            else (240 + n / 64 ^ 3) ∷ low 2 ∷ low 1 ∷ low 0 ∷ []))

-- The bytes of a std::string.
unfoldable pub bytes_of : String → List ℕ
unfolding utf8
bytes_of String.[] = []
bytes_of (String.◌∷◌ c s) = utf8 c ++ bytes_of s

-- A product of two uint32_t.
abbrev times : ℕ → ℕ → ℕ
times a b = a * b % 2 ^ 32

-- rotl32
unfoldable pub rotl32 : ℕ → ℕ → ℕ
rotl32 v n = v * 2 ^ n % 2 ^ 32 + v / 2 ^ (32 - n)

-- The three lines that scramble a block: a product, a rotation by 15 and a product.
unfoldable pub scramble : ℕ → ℕ
unfolding rotl32
scramble k = times (rotl32 (times k 0xcc9e2d51) 15) 0x1b873593

-- One block of four bytes.
unfoldable pub mix_block : ℕ → ℕ → ℕ
unfolding scramble rotl32
mix_block h k = (rotl32 (bit_xor h (scramble k)) 13 * 5 + 0xe6546b64) % 2 ^ 32

-- The blocks and the tail.
unfoldable pub mix_bytes : ℕ → List ℕ → ℕ
unfolding mix_block scramble
mix_bytes h (a ∷ b ∷ c ∷ d ∷ bytes) =
    mix_bytes (mix_block h (a + b * 2 ^ 8 + c * 2 ^ 16 + d * 2 ^ 24)) bytes
mix_bytes h (a ∷ b ∷ c ∷ []) = bit_xor h (scramble (a + b * 2 ^ 8 + c * 2 ^ 16))
mix_bytes h (a ∷ b ∷ []) = bit_xor h (scramble (a + b * 2 ^ 8))
mix_bytes h (a ∷ []) = bit_xor h (scramble a)
mix_bytes h [] = h

-- The steps after the tail.
unfoldable pub finish_mix : ℕ → ℕ
finish_mix h =
    let h1 = times (bit_xor h (h / 2 ^ 16)) 0x85ebca6b in
    let h2 = times (bit_xor h1 (h1 / 2 ^ 13)) 0xc2b2ae35 in bit_xor h2 (h2 / 2 ^ 16)

-- murmur3_x86_32, with the seed 42
unfoldable pub murmur3 : List ℕ → ℤ
unfolding mix_bytes finish_mix signed32
murmur3 bytes = signed32 (finish_mix (bit_xor (mix_bytes 42 bytes) (length bytes)))

-- `raw < 0 ? raw + num_features : raw`, with raw = h % num_features, whose sign is that of h
unfoldable pub bucket_of : ℤ → ℕ → ℕ
bucket_of (pos h) n = h % n
bucket_of (negsuc h) n = if suc h % n == 0 then 0 else n - suc h % n

-- hash_bucket, of a positive number of features
unfoldable pub hash_bucket : String → ℕ → ℕ
unfolding murmur3 bytes_of bucket_of
hash_bucket word num_features = bucket_of (murmur3 (bytes_of word)) num_features
