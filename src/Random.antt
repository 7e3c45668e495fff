-- ===== src/Random.antt =====
-- `wsframe::XorShift128Plus` and `FrameFactory::RandomCache<8>` (single_header/fastws.hpp): where the
-- masking keys come from. `device_random()` is an argument. A `std::uint64_t` is copied to bytes lowest
-- byte first, as on the machines that the project is built for.
pub mod Cache
use fast_websocket_client.Base.{
  ℕ, zero, suc, ◌+◌, ◌*◌, ◌/◌, ◌%◌, ◌^◌, bit_xor, ◌&&◌, List, [], ◌∷◌, ◌++◌, if◌then◌else◌, ltb,
  leb, ◌==◌, get_or, take, u64,
}
use fast_websocket_client.Frame.{MaskingKey}

pub record XorShift128Plus : Type 0 where
  pub s0 : ℕ
  pub s1 : ℕ

-- The constructor: the seeds are not both zero.
unfoldable pub seeded : ℕ → ℕ → XorShift128Plus
seeded seed1 seed2 = record { s0 = seed1; s1 = if seed1 == 0 && seed2 == 0 then 1 else seed2 }

-- `next64()`: the value and the generator that it leaves.
unfoldable pub next64 : XorShift128Plus → ℕ × XorShift128Plus
next64 g =
    let y = g.s1 in
    let x = bit_xor g.s0 (u64 (g.s0 * 2 ^ 23)) in
    let s1 = bit_xor (bit_xor (bit_xor x y) (x / 2 ^ 17)) (y / 2 ^ 26) in
    (u64 (s1 + y), record { s0 = y; s1 = s1 })

-- The lowest `n` bytes of a word, lowest first.
abbrev pub word_bytes : ℕ → ℕ → List ℕ
word_bytes zero w = []
word_bytes (suc n) w = w % 256 ∷ word_bytes n (w / 256)

-- The loop `while (n >= 8)`, with the rounds that are left.
unfoldable pub fill_words : ℕ → XorShift128Plus → List ℕ × XorShift128Plus
fill_words zero g = ([], g)
fill_words (suc k) g =
    let (rnd, g') = next64 g in let (more, g'') = fill_words k g' in (word_bytes 8 rnd ++ more, g'')

-- `fill_bytes(buf, n)`: the bytes that it stores.
unfoldable pub fill_bytes : ℕ → XorShift128Plus → List ℕ × XorShift128Plus
unfolding fill_words
fill_bytes n g =
    let (words, g') = fill_words (n / 8) g in
    let (rnd, g'') = next64 g' in
    if ltb 0 (n % 8) then (words ++ word_bytes (n % 8) rnd, g'') else (words, g')

-- `RandomCache<8>`: 32 bytes, handed out four at a time.
abbrev pub cache_size : ℕ
cache_size = 32

pub record RandomCache : Type 0 where
  pub random : XorShift128Plus
  pub cache : List ℕ
  pub cache_ptr : ℕ

unfoldable pub fill_cache : RandomCache → RandomCache
unfolding fill_bytes
fill_cache c =
    let (bytes, g) = fill_bytes cache_size c.random in
    record { random = g; cache = bytes; cache_ptr = 0 }

-- The constructor, on the two values of `device_random()`.
unfoldable pub new_cache : ℕ → ℕ → RandomCache
unfolding seeded fill_cache
new_cache seed1 seed2 =
    fill_cache (record { random = seeded seed1 seed2; cache = []; cache_ptr = 0 })

-- `get`: the key copied out, and the cache that is left.
unfoldable pub next_key : RandomCache → MaskingKey × RandomCache
unfolding fill_cache
next_key c =
    let d = if leb cache_size c.cache_ptr then fill_cache c else c in
    let byte = λ (i : ℕ). get_or d.cache (d.cache_ptr + i) 0 in
    (
      record { k0 = byte 0; k1 = byte 1; k2 = byte 2; k3 = byte 3 },
      record d { cache_ptr = d.cache_ptr + 4 },
    )
