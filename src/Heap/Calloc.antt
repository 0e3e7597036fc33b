-- ===== src/Heap/Calloc.antt =====
-- libc/src/stdlib/calloc.c, with `malloc` as a function to the object that it returns, `none` for
-- NULL.
use inwox.Base.{
  ℕ, ◌*◌, ◌%◌, ◌^◌, ◌<◌, ◌≡◌, refl, Option, none, some, ◌++◌, arith, length, replicate, Bytes,
  ◌>>=◌,
}
use inwox.Str.{memset}
use inwox.Str.Copy.{memset-replicate}

-- The outer `none` is a write beyond the object.
unfoldable pub clear_object : ℕ → Option Bytes → Option (Option Bytes)
clear_object n none = some none
clear_object n (some obj) = memset obj 0 n >>= λ cleared. some (some cleared)

unfoldable pub calloc : (ℕ → Option Bytes) → ℕ → ℕ → Option (Option Bytes)
calloc malloc num size = clear_object ((num * size) % 2 ^ 32) (malloc ((num * size) % 2 ^ 32))

-- Where the product does not overflow and malloc returns an object of this size at least, its bytes
-- are cleared up to it.
pub calloc-replicate :
    (malloc : ℕ → Option Bytes) (num size : ℕ) (old back : Bytes)
    → num * size < 2 ^ 32
    → malloc (num * size) ≡ some (old ++ back)
    → length old ≡ num * size
    → calloc malloc num size ≡ some (some (replicate (num * size) 0 ++ back))
unfolding calloc clear_object
calloc-replicate malloc num size old back small e l =
    let exact : (num * size) % 2 ^ 32 ≡ num * size = omega arith in
    rw (exact, e, ← l, memset-replicate old back 0) refl

-- 65536 objects of 65536 bytes are an object of no bytes.
pub calloc-wraps :
    (malloc : ℕ → Option Bytes) (obj : Bytes)
    → malloc 0 ≡ some obj
    → calloc malloc 65536 65536 ≡ some (some obj)
unfolding calloc clear_object memset
calloc-wraps malloc obj e = rw e refl
