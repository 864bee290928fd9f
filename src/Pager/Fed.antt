-- ===== src/Pager/Fed.antt =====
-- What the loop of `pipeFile` in ps4/main.c writes and counts.
use ece.Base.{
  ℕ, suc, ◌+◌, ◌<◌, ◌≡◌, ◌∙◌, [], ◌∷◌, ◌++◌, length, length-append, Option, none, some, ltb, true,
  false, arith,
}
use ece.Base.Int.{ℤ, pos, ◌+ℤ◌, to_int}
use mathlib.Core.List.{append-nil, append_assoc}
use ece.Posix.Input.{Text, Reads, first, content, NoFailure, TakesAll, first-length}
use ece.Pager.Feed.{fed, retry, feed_bytes, feed}

add-total : (n m : ℕ) → n + m < 0x8000_0000 → to_int (pos n +ℤ pos m) ≡ pos (n + m)
unfolding to_int ◌+ℤ◌
add-total n m h = ground arith

-- A round whose `write` took `n` bytes.
feed_bytes-some :
    (accept : Text → Text → Option ℕ) (bytes out : Text) (total : ℤ) (n : ℕ)
    → accept out bytes ≡ some (suc n)
    → feed_bytes accept bytes out total
      ≡ some
          (retry accept (suc n) bytes (out ++ first (suc n) bytes), to_int (total +ℤ pos (suc n)))
unfolding feed_bytes
feed_bytes-some accept bytes out total n e = rw (e, feed_bytes)

ltb_same : (n : ℕ) → ltb n n ≡ false
ltb_same n = ground arith

feed_bytes-all :
    (accept : Text → Text → Option ℕ) (c : ℕ) (bytes out : Text) (n : ℕ)
    → TakesAll accept
    → n + length (c ∷ bytes) < 0x8000_0000
    → feed_bytes accept (c ∷ bytes) out (pos n)
      ≡ some (out ++ (c ∷ bytes), pos (n + length (c ∷ bytes)))
feed_bytes-all accept c bytes out n takes small =
    feed_bytes-some accept (c ∷ bytes) out (pos n) (length bytes) (takes out (c ∷ bytes))
    ∙ rw (ltb_same (length (c ∷ bytes)), first-length bytes, add-total n (length (c ∷ bytes)) small)

add_zero : (n : ℕ) → n + 0 ≡ n
add_zero n = omega arith

lt→ltb : (a b : ℕ) → a < b → ltb a b ≡ true
lt→ltb a b h = ground arith

-- Where every write takes all it is given and no read fails, the loop ends with the end of the file,
-- has written the file's content behind what was there, and has added its length to the bytes
-- counted, if these stay below the bound of an `int`.
pub feed_all :
    (accept : Text → Text → Option ℕ) (reads : Reads) (out : Text) (n : ℕ)
    → TakesAll accept
    → NoFailure reads
    → n + length (content reads) < 0x8000_0000
    → feed accept reads out (pos n) ≡ record {
      out = out ++ content reads;
      total_bytes = pos (n + length (content reads));
      status = fed;
    }
unfolding feed
feed_all accept [] out n takes sound small = rw (append-nil, add_zero)
feed_all accept (none ∷ reads) out n takes sound small = absurd sound
feed_all accept (some [] ∷ reads) out n takes sound small = rw (append-nil, add_zero)
feed_all accept (some (c ∷ bytes) ∷ reads) out n takes sound small =
    let size : length (c ∷ bytes ++ content reads) ≡ length (c ∷ bytes) + length (content reads) =
      length-append (c ∷ bytes) (content reads) in
    let one = feed_bytes-all accept c bytes out n takes (omega (arith, size)) in
    let rest =
      feed_all accept reads (out ++ (c ∷ bytes)) (n + length (c ∷ bytes)) takes sound
        (omega (arith, size)) in
    let texts = append_assoc out (c ∷ bytes) (content reads) in
    let totals : n + length (c ∷ bytes) + length (content reads)
        ≡ n + length (c ∷ bytes ++ content reads) =
      omega (arith, size) in
    rw (one, feed) (rest ∙ rw (texts, totals))
