-- ===== src/FifoTest/System.antt =====
-- The processes of `test2` in ps7/fifoTest.c, a call of the fifo at a time.
use ece.Base.{ℕ, zero, suc, ◌+◌, ◌*◌, ◌%◌, ◌^◌, ◌<◌, ◌≡◌, ◌==◌, ltb, if◌then◌else◌, some, update}
use ece.Base.Int.{ℤ, pos, negsuc}
use ece.FifoTest.Fifo.{Fifo}
use ece.FifoTest.Numbers.{longs_per_writer, num_writers, number, writer, decode}

-- How it stands with the reader; `undefined` is a use of `trackers` outside its bounds.
pub data Status : Type 0 where
  reading success failed undefined : Status

pub record Reader : Type 0 where
  pub j : ℕ
  pub trackers : ℕ → ℕ
  pub status : Status

-- The test of a number, by its writer.
abbrev pub track : ℕ → ℕ → Reader → Reader
track i num r =
    let counted = update r.trackers i ((r.trackers i + 1) % 2 ^ 64) in
    if r.trackers i == num
    then record r { j = r.j + 1; trackers = counted }
    else record r { trackers = counted; status = failed }

abbrev pub track_writer : ℤ → ℕ → Reader → Reader
track_writer (negsuc n) num r = record r { status = undefined }
track_writer (pos zero) num r = record r { status = undefined }
track_writer (pos (suc i)) num r =
    if ltb i num_writers then track i num r else record r { status = undefined }

-- A round of the reader, on what `fifo_rd` gave.
unfoldable pub check : ℕ → Reader → Reader
unfolding writer decode
check num r = track_writer (writer num) (decode num) r

module _ (F : Fifo) where
  -- The fifo; how many writers have come to their loop; the `j` of each; the reader. Writer `i` has the
  -- `my_procnum` `i + 1`.
  pub record System : Type 0 where
    pub fifo : F.State
    pub born : ℕ
    pub next : ℕ → ℕ
    pub reader : Reader

  -- `begin_loop` is a `fork` of the next writer, which succeeds, and for the last writer the end of
  -- the loop of forks in the process that made the others.
  pub data Step (s : System) : System → Type 0 where
    begin_loop : s.born < num_writers → Step s (record s { born = s.born + 1 })
    write :
        (i : ℕ) (t : F.State)
        → i < s.born
        → s.next i < longs_per_writer
        → F.wr s.fifo (number (i + 1) (s.next i)) ≡ some t
        → Step s (record s { fifo = t; next = update s.next i (s.next i + 1) })
    read :
        (num : ℕ) (t : F.State)
        → s.reader.status ≡ reading
        → s.reader.j < num_writers * longs_per_writer
        → F.rd s.fifo ≡ some (num, t)
        → Step s (record s { fifo = t; reader = check num s.reader })
    finish :
        s.reader.status ≡ reading
        → s.reader.j ≡ num_writers * longs_per_writer
        → Step s (record s { reader = record s.reader { status = success } })

  abbrev pub start : System
  start = record {
    fifo = F.init;
    born = 0;
    next = λ i. 0;
    reader = record { j = 0; trackers = λ i. 0; status = reading };
  }

  pub data Reach : System → Type 0 where
    begin : Reach start
    later : {s t : System} → Reach s → Step s t → Reach t
