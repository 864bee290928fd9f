-- ===== src/Pager/Feed.antt =====
-- The loop of `pipeFile` in ps4/main.c that copies a file into the first pipe.
use ece.Base.{ℕ, zero, suc, ◌-◌, [], ◌∷◌, ◌++◌, length, Option, none, some, ltb, if◌then◌else◌}
use ece.Base.Int.{ℤ, pos, ◌+ℤ◌, to_int}
use ece.Posix.Input.{Text, Reads, first}

-- How the loop ends: by the end of the file, or by `exit(1)` after a failed `write` or `read`.
pub data Status : Type 0 where
  fed write_failed read_failed : Status

-- What has been written into the pipe, `*totalBytes`, and how the loop ended.
pub record Feed : Type 0 where
  pub out : Text
  pub total_bytes : ℤ
  pub status : Status

-- What a `write` of `bytes` takes: `accept` gives its result, `none` for -1.
abbrev pub taken : Option ℕ → Text → Text
taken none bytes = []
taken (some n) bytes = first n bytes

-- "retry write on partial write": the second `write`, of as many bytes as are left, from the start
-- of the buffer again.
abbrev pub retry : (Text → Text → Option ℕ) → ℕ → Text → Text → Text
retry accept n bytes out =
    if ltb n (length bytes)
    then out ++ taken (accept out (first (length bytes - n) bytes)) (first (length bytes - n) bytes)
    else out

-- The body of the loop on what was read, up to the next `read`; `none` is `exit(1)`.
unfoldable pub feed_bytes : (Text → Text → Option ℕ) → Text → Text → ℤ → Option (Text × ℤ)
feed_bytes accept bytes out total = elim (accept out bytes) [
  | none ↦ none
  | some zero ↦ none
  | some (suc n) ↦
      some (retry accept (suc n) bytes (out ++ first (suc n) bytes), to_int (total +ℤ pos (suc n)))
]

-- The loop, over what the calls of `read` give.
unfoldable pub feed : (Text → Text → Option ℕ) → Reads → Text → ℤ → Feed
unfolding feed_bytes
feed accept [] out total = record { out = out; total_bytes = total; status = fed }
feed accept (none ∷ reads) out total = record {
  out = out;
  total_bytes = total;
  status = read_failed;
}
feed accept (some [] ∷ reads) out total = record { out = out; total_bytes = total; status = fed }
feed accept (some (c ∷ bytes) ∷ reads) out total = elim (feed_bytes accept (c ∷ bytes) out total) [
  | none ↦ record { out = out; total_bytes = total; status = write_failed }
  | some (out', total') ↦ feed accept reads out' total'
]
