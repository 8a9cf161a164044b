-- ===== src/Query/BufferPool.antt =====
-- src/query/buffer_pool.cpp and include/vdb/query/buffer_pool.h: the pool of I/O buffers. A buffer is
-- its address. What `std::aligned_alloc` returns is an argument, `none` for a null pointer. The
-- result `none` is the abort on a null pointer, or an access out of bounds.
pub mod Align
pub mod Counts
pub mod Ownership
pub mod Reach
use vec_fetch.Prelude.{
  ℕ, zero, suc, ◌+◌, ◌-◌, List, [], ◌∷◌, ◌++◌, Option, none, some, bit_and, leb, ◌==◌,
  if◌then◌else◌, ◌>>=◌, length, get_elem?, set, take, u32, u32_max,
}

pub record PoolEntry : Type 0 where
  pub buf : ℕ
  pub capacity : ℕ

-- The map of the outstanding buffers is an association list, with one entry for a buffer.
pub record BufferPool : Type 0 where
  pub pool : List PoolEntry
  pub outstanding : List PoolEntry

-- `(size + 4095u) & ~4095u`
unfoldable pub aligned_size : ℕ → ℕ
aligned_size size = bit_and (u32 (size + 4095)) (u32_max - 4095)

-- The search for a pooled buffer that is large enough, from index `i` on.
unfoldable pub find_fit : List PoolEntry → ℕ → ℕ → Option (ℕ × PoolEntry)
find_fit [] size i = none
find_fit (e ∷ es) size i = if leb size e.capacity then some (i, e) else find_fit es size (i + 1)

-- `pool_[i] = std::move(pool_.back()); pool_.pop_back();`
unfoldable pub swap_and_pop : List PoolEntry → ℕ → Option (List PoolEntry)
swap_and_pop pool i = do
  back ← get_elem? pool (length pool - 1)
  some (take (length pool - 1) (set pool i back))

-- `outstanding_[buf] = capacity`
unfoldable pub assign : List PoolEntry → ℕ → ℕ → List PoolEntry
assign [] buf capacity = record { buf = buf; capacity = capacity } ∷ []
assign (e ∷ es) buf capacity =
    if e.buf == buf
    then record { buf = buf; capacity = capacity } ∷ es
    else e ∷ assign es buf capacity

-- `outstanding_.find(buf)`
unfoldable pub find : List PoolEntry → ℕ → Option ℕ
find [] buf = none
find (e ∷ es) buf = if e.buf == buf then some e.capacity else find es buf

-- `outstanding_.erase(it)`
unfoldable pub erase : List PoolEntry → ℕ → List PoolEntry
erase [] buf = []
erase (e ∷ es) buf = if e.buf == buf then es else e ∷ erase es buf

unfoldable pub reuse : BufferPool → ℕ → PoolEntry → Option (BufferPool × ℕ)
reuse s i e = do
  pool ← swap_and_pop s.pool i
  some (record { pool = pool; outstanding = assign s.outstanding e.buf e.capacity }, e.buf)

unfoldable pub allocate : BufferPool → ℕ → Option ℕ → Option (BufferPool × ℕ)
allocate s size allocated = do
  raw ← allocated
  some (record { pool = s.pool; outstanding = assign s.outstanding raw size }, raw)

unfoldable pub acquire_found :
    BufferPool → ℕ → Option ℕ → Option (ℕ × PoolEntry) → Option (BufferPool × ℕ)
acquire_found s size allocated (some (i, e)) = reuse s i e
acquire_found s size allocated none = allocate s size allocated

-- BufferPool::Acquire
unfoldable pub acquire : BufferPool → ℕ → Option ℕ → Option (BufferPool × ℕ)
acquire s size allocated =
    acquire_found s (aligned_size size) allocated (find_fit s.pool (aligned_size size) 0)

unfoldable pub release_found : BufferPool → ℕ → Option ℕ → BufferPool
release_found s buf none = s
release_found s buf (some capacity) = record {
  pool = s.pool ++ record { buf = buf; capacity = capacity } ∷ [];
  outstanding = erase s.outstanding buf;
}

-- BufferPool::Release
unfoldable pub release : BufferPool → ℕ → BufferPool
release s buf = release_found s buf (find s.outstanding buf)

-- BufferPool::Prime, with what the allocator returns in each of its rounds.
unfoldable pub prime : BufferPool → ℕ → List (Option ℕ) → Option BufferPool
prime s size [] = some s
prime s size (allocated ∷ rest) = do
  raw ← allocated
  prime
      (record {
        pool = s.pool ++ record { buf = raw; capacity = aligned_size size } ∷ [];
        outstanding = s.outstanding;
      })
      size rest
