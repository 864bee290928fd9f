-- ===== src/Mmap/Disk.antt =====
-- A file and its mapping as functions: they have the behaviour that ps5/main.c assumes.
use ece.Base.{
  Bool-cases, inl, inr, ℕ, zero, suc, ◌+◌, ◌-◌, ◌<◌, ◌≤◌, ◌≡◌, refl, List, [], ◌∷◌, length,
  get_elem?, Option, none, some, ◌==◌, ltb, if◌then◌else◌, arith,
}
use ece.Mmap.Calls.{
  Calls, Sharing, shared, private, in_pages, IsPosix, NoFailure, Appended, Mapped, Stored, Sought,
}

-- `length_of` bytes of `data` are the file; the mapping has its own view of it.
pub record Disk : Type 0 where
  pub data_of : ℕ → ℕ
  pub length_of : ℕ
  pub at : ℕ
  pub view : ℕ → Option ℕ
  pub how : Sharing

abbrev disk_byte : Disk → ℕ → Option ℕ
disk_byte d j = if ltb j d.length_of then some (d.data_of j) else none

abbrev or_zero : Option ℕ → ℕ
or_zero none = 0
or_zero (some c) = c

-- Every write is at the end.
abbrev written : List ℕ → Disk → Disk
written bytes d = record d {
  data_of =
      λ j. if ltb j d.length_of then d.data_of j else or_zero (get_elem? bytes (j - d.length_of));
  length_of = d.length_of + length bytes;
  at = d.length_of + length bytes;
}

abbrev with_view : Sharing → ℕ → Disk → Disk
with_view how n d = record d {
  view = λ j.
      if ltb j (in_pages n)
      then (if ltb j d.length_of then some (d.data_of j) else some 0)
      else none;
  how = how;
}

abbrev through : Sharing → (ℕ → ℕ) → ℕ → ℕ → ℕ → ℕ
through shared old j v i = if i == j then v else old i
through private old j v i = old i

abbrev put : ℕ → ℕ → Disk → Disk
put j v d = record d {
  view = λ i. if i == j then some v else d.view i;
  data_of = through d.how d.data_of j v;
}

abbrev disk_store : ℕ → ℕ → Disk → Option Disk
disk_store j v d = elim (d.view j) [ none ↦ none | some c ↦ some (put j v d) ]

-- As many bytes as there are, up to `n`.
abbrev bytes_from : ℕ → ℕ → Disk → List ℕ
bytes_from zero i d = []
bytes_from (suc n) i d =
    let rest = bytes_from n (i + 1) d in if ltb i d.length_of then d.data_of i ∷ rest else []

abbrev pub disk : Calls
disk = record {
  State = Disk;
  byte = disk_byte;
  size = λ d. d.length_of;
  position = λ d. d.at;
  page = λ d. d.view;
  sharing = λ d. d.how;
  create = λ d. some (record d { length_of = 0; at = 0 });
  write = λ bytes d. some (written bytes d);
  fstat = λ d. some d.length_of;
  mmap = λ how n d. some (with_view how n d);
  mmap_read_only =
      λ n d. if n == 0 then none else some (record d { view = λ j. none; how = shared });
  store = disk_store;
  seek_set = λ n d. some (record d { at = n });
  seek_end = λ n d. some (record d { at = d.length_of + n });
  read = λ n d. some (bytes_from n d.at d, record d { at = d.at + n });
  close = λ d. some d;
}

get_elem?-or_zero :
    (bytes : List ℕ) (j : ℕ)
    → get_elem? bytes j
      ≡ (if ltb j (length bytes) then some (or_zero (get_elem? bytes j)) else none)
get_elem?-or_zero [] j = ground arith
get_elem?-or_zero (c ∷ bytes) zero = ground arith
get_elem?-or_zero (c ∷ bytes) (suc j) = ground (arith, get_elem?-or_zero bytes j)

bytes_from-get :
    (n i : ℕ) (d : Disk) (j k : ℕ)
    → k ≡ i + j
    → get_elem? (bytes_from n i d) j ≡ (if ltb j n then disk_byte d k else none)
bytes_from-get zero i d j k e = ground arith
bytes_from-get (suc n) i d zero k e =
    let same : k ≡ i = omega arith in
    rw same
      (elim (Bool-cases (ltb i d.length_of)) [ inl more ↦ ground arith | inr over ↦ ground arith ])
bytes_from-get (suc n) i d (suc j) k e = elim (Bool-cases (ltb i d.length_of)) [
  | inl more ↦ ground (arith, bytes_from-get n (i + 1) d j k (omega arith))
  | inr over ↦ ground arith
]

written-Appended : (s : Disk) (bytes : List ℕ) → Appended disk s (written bytes s) bytes
written-Appended s bytes = record {
  longer = refl;
  behind = refl;
  each = λ j. ground (arith, get_elem?-or_zero bytes (j - s.length_of));
}

with_view-Mapped :
    (s : Disk) (how : Sharing) (n : ℕ) → s.length_of ≤ n → Mapped disk s (with_view how n s) how
with_view-Mapped s how n is = record {
  size_kept = refl;
  byte_kept = λ j. refl;
  shares = refl;
  pages = λ j h. let inside : j < in_pages n = omega arith in ground arith;
}

put-Stored : (s : Disk) (j v : ℕ) → Stored disk s (put j v s) j v
put-Stored s j v = record {
  size_kept = refl;
  sharing_kept = refl;
  pages = λ i. refl;
  shared_bytes = λ is low i. ground arith;
  private_bytes = λ is i. ground arith;
}

at-Sought : (s : Disk) (n : ℕ) → Sought disk s (record s { at = n })
at-Sought s n = record { size_kept = refl; byte_kept = λ j. refl; page_kept = λ j. refl }

-- A store that succeeds was to a page of the mapping.
stored_put : (s t : Disk) (j v : ℕ) → disk_store j v s ≡ some t → t ≡ put j v s
stored_put s t j v e = ground arith

pub disk-IsPosix : IsPosix disk
disk-IsPosix = record {
  has_bytes = λ s j h e. ground arith;
  created = λ s t e. (ground arith, ground arith);
  appended = λ s t bytes end e.
      let same : t ≡ written bytes s = ground arith in rw same (written-Appended s bytes);
  stat_size = λ s n e. ground arith;
  mapped = λ s t how n e is.
      let same : t ≡ with_view how n s = ground arith in rw same (with_view-Mapped s how n is);
  maps_none = λ s. refl;
  stores = λ s j v h e. ground arith;
  stored = λ s t j v e. rw (stored_put s t j v e) (put-Stored s j v);
  sought =
      λ s t n e. let same : t ≡ record s { at = n } = ground arith in rw same (at-Sought s n, refl);
  sought_end = λ s t n e.
      let same : t ≡ record s { at = s.length_of + n } = ground arith in
      rw same (at-Sought s (s.length_of + n));
  got = λ s t n bytes e.
      let same : t ≡ record s { at = s.at + n } = ground arith in
      let all : bytes ≡ bytes_from n s.at s = ground arith in
      rw (same, all) (at-Sought s (s.at + n), λ i. bytes_from-get n s.at s i (s.at + i) refl);
  closed = λ s t e. let same : t ≡ s = ground arith in rw same (at-Sought s s.at);
}

pub disk-NoFailure : NoFailure disk
disk-NoFailure = record {
  creates = λ s e. ground arith;
  writes = λ s bytes e. ground arith;
  stats = λ s e. ground arith;
  maps = λ s how n more e. ground arith;
  seeks = λ s n e. ground arith;
  seeks_end = λ s n e. ground arith;
  reads = λ s n e. ground arith;
  closes = λ s e. ground arith;
}
