-- ===== src/Random/Cache.antt =====
-- The position of the cache of random bytes (single_header/fastws.hpp).
use fast_websocket_client.Base.{
  ℕ, zero, suc, ◌+◌, ◌*◌, ◌/◌, ◌%◌, ◌≤◌, ◌<◌, ◌≡◌, refl, inl, inr, List, [], ◌∷◌, ◌++◌, arith, leb,
  Bool-cases, length, length-append, get_or, All,
}
use fast_websocket_client.Random.{
  XorShift128Plus, next64, word_bytes, fill_words, fill_bytes, cache_size, RandomCache, fill_cache,
  next_key,
}

abbrev pub IsByte : ℕ → Type 0
IsByte b = b < 256

-- The cache is full of bytes, and the next key starts at a multiple of four within it.
pub record IsFilled (c : RandomCache) : Type 0 where
  pub full : length c.cache ≡ cache_size
  pub bytes : All IsByte c.cache
  pub aligned : c.cache_ptr % 4 ≡ 0
  pub within : c.cache_ptr ≤ cache_size

length-fill_words : (k : ℕ) (g : XorShift128Plus) → length (fill_words k g).0 ≡ 8 * k
unfolding fill_words
length-fill_words zero g = refl
length-fill_words (suc k) g = omega (
  arith,
  length-append (word_bytes 8 (next64 g).0) (fill_words k (next64 g).1).0,
  length-fill_words k (next64 g).1,
)

pub All-append : (xs ys : List ℕ) → All IsByte xs → All IsByte ys → All IsByte (xs ++ ys)
All-append [] ys p q = q
All-append (x ∷ xs) ys p q = (p.0, All-append xs ys p.1 q)

word_bytes-IsByte : (n w : ℕ) → All IsByte (word_bytes n w)
word_bytes-IsByte zero w = tt
word_bytes-IsByte (suc n) w = (omega arith, word_bytes-IsByte n (w / 256))

fill_words-IsByte : (k : ℕ) (g : XorShift128Plus) → All IsByte (fill_words k g).0
unfolding fill_words
fill_words-IsByte zero g = tt
fill_words-IsByte (suc k) g =
    All-append (word_bytes 8 (next64 g).0) _ (word_bytes-IsByte 8 _) (fill_words-IsByte k _)

pub fill_cache-IsFilled : (c : RandomCache) → IsFilled (fill_cache c)
unfolding fill_cache fill_bytes
fill_cache-IsFilled c = record {
  full = length-fill_words 4 c.random;
  bytes = fill_words-IsByte 4 c.random;
  aligned = refl;
  within = omega arith;
}

get_or-IsByte : (xs : List ℕ) (i : ℕ) → All IsByte xs → get_or xs i 0 < 256
get_or-IsByte [] i p = omega arith
get_or-IsByte (x ∷ xs) zero p = p.0
get_or-IsByte (x ∷ xs) (suc i) p = get_or-IsByte xs i p.1

-- From a full cache of bytes whose position is a multiple of four within it, the next key is four
-- numbers below 256, and the cache that is left is of the same kind, with its position at 4 or
-- more.
pub next_key-IsFilled :
    (c : RandomCache)
    → IsFilled c
    → IsFilled (next_key c).1
      × ((next_key c).0.k0 < 256)
      × ((next_key c).0.k1 < 256)
      × ((next_key c).0.k2 < 256)
      × ((next_key c).0.k3 < 256)
      × (4 ≤ (next_key c).1.cache_ptr)
unfolding next_key
next_key-IsFilled c v = elim (Bool-cases (leb cache_size c.cache_ptr)) [
  | inl empty ↦ rw empty (hands_out (fill_cache c) (fill_cache-IsFilled c) (omega arith))
  | inr left ↦ rw left (hands_out c v (ground (arith, v.aligned, v.within)))
]
  where
    hands_out :
        (d : RandomCache)
        → IsFilled d
        → d.cache_ptr + 4 ≤ cache_size
        → IsFilled (record d { cache_ptr = d.cache_ptr + 4 })
          × (get_or d.cache (d.cache_ptr + 0) 0 < 256)
          × (get_or d.cache (d.cache_ptr + 1) 0 < 256)
          × (get_or d.cache (d.cache_ptr + 2) 0 < 256)
          × (get_or d.cache (d.cache_ptr + 3) 0 < 256)
          × (4 ≤ d.cache_ptr + 4)
    hands_out d w room = (
      record { full = w.full; bytes = w.bytes; aligned = omega (arith, w.aligned); within = room },
      get_or-IsByte d.cache _ w.bytes,
      get_or-IsByte d.cache _ w.bytes,
      get_or-IsByte d.cache _ w.bytes,
      get_or-IsByte d.cache _ w.bytes,
      omega arith,
    )
