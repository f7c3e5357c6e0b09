-- ===== src/Protobuf/Bytes.antt =====
-- protobuf/probuf.cpp: numbers of four bytes, and parts of the data.
use learning_c.Common.{
  ℕ, ◌<◌, ◌≡◌, List, ◌++◌, length, drop-append, take-append, length-append, ok, fault, arith,
}
use learning_c.Protobuf.{bytes_of, number_of, slice, read_int32, int32_size}

pub number_of-bytes_of : (v : ℕ) → v < 4294967296 → number_of (bytes_of int32_size v) ≡ v
number_of-bytes_of v h = omega arith

pub slice-append : (pre s post : List ℕ) → slice (pre ++ (s ++ post)) (length pre) (length s) ≡ ok s
slice-append pre s post = ground (
  arith,
  drop-append pre (s ++ post),
  take-append s post,
  length-append pre (s ++ post),
  length-append s post,
)

pub read_int32-append :
    (pre post : List ℕ) (v : ℕ)
    → v < 4294967296
    → read_int32 (pre ++ (bytes_of int32_size v ++ post)) (length pre) ≡ ok v
unfolding read_int32
read_int32-append pre post v h =
    ground (arith, slice-append pre (bytes_of int32_size v) post, number_of-bytes_of v h)

pub slice-fault : (pre s : List ℕ) (n : ℕ) → length s < n → slice (pre ++ s) (length pre) n ≡ fault
slice-fault pre s n h = ground (arith, length-append pre s)
