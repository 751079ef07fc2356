-- ===== src/BytesPool.antt =====
-- pkg/common/bytespool/bytespool.go: the cache of byte buffers over a `sync.Pool`, which gives back any
-- cached buffer or makes a new one. Sizes are taken as not negative.
pub mod Sizes
use goapp.Base.{
  ℕ, zero, suc, ◌+◌, ◌%◌, ◌^◌, Option, none, some, List, [], ◌∷◌, ltb, if◌then◌else◌, get_elem?,
  erase_idx,
}

-- A `[]byte`: its capacity, and the bytes up to its length.
pub record Buffer : Type 0 where
  pub cap : ℕ
  pub bytes : List ℕ

-- `Pool`, with the global counters.
pub record BytesPool : Type 0 where
  pub pooled_size : ℕ
  pub cached : List Buffer
  pub count_get : ℕ
  pub count_put : ℕ
  pub count_new : ℕ

abbrev pub replicate : ℕ → List ℕ
replicate zero = []
replicate (suc n) = 0 ∷ replicate n

-- `make([]byte, cfg.PooledSize)`
abbrev pub make_buf : ℕ → Buffer
make_buf n = record { cap = n; bytes = replicate n }

-- `New` at a configuration; at nil it logs an error and gives nil.
unfoldable pub new : Option ℕ → Option BytesPool
new none = none
new (some n) =
    some (record { pooled_size = n; cached = []; count_get = 0; count_put = 0; count_new = 0 })

abbrev add_one : ℕ → ℕ
add_one n = (n + 1) % 2 ^ 64

unfoldable pub taken : ℕ → Option Buffer → BytesPool → Buffer × BytesPool
taken i none p = (make_buf p.pooled_size, record p { count_new = add_one p.count_new })
taken i (some b) p = (b, record p { cached = erase_idx p.cached i })

unfoldable pub pool_take : Option ℕ → BytesPool → Buffer × BytesPool
unfolding taken
pool_take none p = taken 0 none p
pool_take (some i) p = taken i (get_elem? p.cached i) p

-- `GetBuf` at a pool that is not nil; `pick` is the choice of the runtime.
unfoldable pub get_buf : Option ℕ → BytesPool → Buffer × BytesPool
unfolding pool_take
get_buf pick p = pool_take pick (record p { count_get = add_one p.count_get })

-- `PutBuf` at a pool that is not nil.
unfoldable pub put_buf : Buffer → BytesPool → BytesPool
put_buf b p =
    if ltb b.cap p.pooled_size
    then p
    else record p { cached = record b { bytes = [] } ∷ p.cached; count_put = add_one p.count_put }
