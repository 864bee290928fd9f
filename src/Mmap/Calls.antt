-- ===== src/Mmap/Calls.antt =====
-- What ps5/main.c assumes of the system: one file, open, and one mapping of it.
use ece.Base.{
  ℕ, ◌+◌, ◌-◌, ◌*◌, ◌/◌, ◌<◌, ◌≤◌, ◌≡◌, ◌≢◌, List, length, get_elem?, Option, none, some, ◌==◌, ltb,
  if◌then◌else◌,
}

-- `MAP_SHARED` and `MAP_PRIVATE`.
pub data Sharing : Type 0 where
  shared private : Sharing

-- The bytes of the pages that a length takes.
abbrev pub in_pages : ℕ → ℕ
in_pages n = (n + 4095) / 4096 * 4096

-- A state has the file's bytes, its length and the position in it, and what a read through a mapping
-- for reading and writing gives: `none` is a signal. Of the calls, `none` is -1; `store`, an assignment through the mapping,
-- is a signal there. `create` opens the file and makes it empty.
pub record Calls : Type 1 where
  pub State : Type 0
  pub byte : State → ℕ → Option ℕ
  pub size : State → ℕ
  pub position : State → ℕ
  pub page : State → ℕ → Option ℕ
  pub sharing : State → Sharing
  pub create : State → Option State
  pub write : List ℕ → State → Option State
  pub fstat : State → Option ℕ
  pub mmap : Sharing → ℕ → State → Option State
  pub mmap_read_only : ℕ → State → Option State
  pub store : ℕ → ℕ → State → Option State
  pub seek_set : ℕ → State → Option State
  pub seek_end : ℕ → State → Option State
  pub read : ℕ → State → Option (List ℕ × State)
  pub close : State → Option State

module _ (O : Calls) where
  -- A write at the end of the file.
  pub record Appended (s t : O.State) (bytes : List ℕ) : Type 0 where
    pub longer : O.size t ≡ O.size s + length bytes
    pub behind : O.position t ≡ O.size t
    pub each :
        (j : ℕ)
        → O.byte t j ≡ (if ltb j (O.size s) then O.byte s j else get_elem? bytes (j - O.size s))

  -- A new mapping from the start of the file: its bytes, and zeros to the end of the last page.
  pub record Mapped (s t : O.State) (how : Sharing) : Type 0 where
    pub size_kept : O.size t ≡ O.size s
    pub byte_kept : (j : ℕ) → O.byte t j ≡ O.byte s j
    pub shares : O.sharing t ≡ how
    pub pages :
        (j : ℕ)
        → j < in_pages (O.size s)
        → O.page t j ≡ (if ltb j (O.size s) then O.byte s j else some 0)

  -- An assignment through the mapping reaches the file, within its length, if the mapping is shared.
  pub record Stored (s t : O.State) (j v : ℕ) : Type 0 where
    pub size_kept : O.size t ≡ O.size s
    pub sharing_kept : O.sharing t ≡ O.sharing s
    pub pages : (i : ℕ) → O.page t i ≡ (if i == j then some v else O.page s i)
    pub shared_bytes :
        O.sharing s ≡ shared
        → j < O.size s
        → (i : ℕ) → O.byte t i ≡ (if i == j then some v else O.byte s i)
    pub private_bytes : O.sharing s ≡ private → (i : ℕ) → O.byte t i ≡ O.byte s i

  -- Nothing but the position changes.
  pub record Sought (s t : O.State) : Type 0 where
    pub size_kept : O.size t ≡ O.size s
    pub byte_kept : (j : ℕ) → O.byte t j ≡ O.byte s j
    pub page_kept : (j : ℕ) → O.page t j ≡ O.page s j

  -- A file has bytes up to its length. The documented behaviour of the calls that succeed; an assignment succeeds where a read does. A
  -- read takes as many bytes as there are, up to those asked for.
  pub record IsPosix : Type 0 where
    pub has_bytes : (s : O.State) (j : ℕ) → j < O.size s → O.byte s j ≢ none
    pub created : (s t : O.State) → O.create s ≡ some t → (O.size t ≡ 0) × (O.position t ≡ 0)
    pub appended :
        (s t : O.State) (bytes : List ℕ)
        → O.position s ≡ O.size s
        → O.write bytes s ≡ some t
        → Appended s t bytes
    pub stat_size : (s : O.State) (n : ℕ) → O.fstat s ≡ some n → n ≡ O.size s
    pub mapped :
        (s t : O.State) (how : Sharing) (n : ℕ)
        → O.mmap how n s ≡ some t
        → O.size s ≤ n
        → Mapped s t how
    -- EINVAL.
    pub maps_none : (s : O.State) → O.mmap_read_only 0 s ≡ none
    pub stores : (s : O.State) (j v : ℕ) → O.page s j ≢ none → O.store j v s ≢ none
    pub stored : (s t : O.State) (j v : ℕ) → O.store j v s ≡ some t → Stored s t j v
    pub sought : (s t : O.State) (n : ℕ) → O.seek_set n s ≡ some t → Sought s t × (O.position t ≡ n)
    pub sought_end : (s t : O.State) (n : ℕ) → O.seek_end n s ≡ some t → Sought s t
    pub got :
        (s t : O.State) (n : ℕ) (bytes : List ℕ)
        → O.read n s ≡ some (bytes, t)
        → Sought s t
          × ((i : ℕ) → get_elem? bytes i ≡ (if ltb i n then O.byte s (O.position s + i) else none))
    pub closed : (s t : O.State) → O.close s ≡ some t → Sought s t

  -- No call fails.
  pub record NoFailure : Type 0 where
    pub creates : (s : O.State) → O.create s ≢ none
    pub writes : (s : O.State) (bytes : List ℕ) → O.write bytes s ≢ none
    pub stats : (s : O.State) → O.fstat s ≢ none
    pub maps : (s : O.State) (how : Sharing) (n : ℕ) → n ≢ 0 → O.mmap how n s ≢ none
    pub seeks : (s : O.State) (n : ℕ) → O.seek_set n s ≢ none
    pub seeks_end : (s : O.State) (n : ℕ) → O.seek_end n s ≢ none
    pub reads : (s : O.State) (n : ℕ) → O.read n s ≢ none
    pub closes : (s : O.State) → O.close s ≢ none
