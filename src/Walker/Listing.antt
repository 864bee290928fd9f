-- ===== src/Walker/Listing.antt =====
-- The way of ps2/main.c through the directories.
use ece.Base.{ℕ, Bool, false, List, [], ◌∷◌, ◌++◌, ◌==◌, if◌then◌else◌}

abbrev pub Text : Type 0
Text = List ℕ

-- What `readdir` gives for an open directory, entry by entry: `d_name`, whether `d_type` is DT_DIR,
-- and what is inside of it.
pub data Directory : Type 0 where
  finish : Directory
  entry : (d_name : Text) (is_dir : Bool) (inside rest : Directory) → Directory

-- "Skip hidden files or directories".
abbrev pub is_hidden : Text → Bool
is_hidden [] = false
is_hidden (c ∷ name) = c == b'.'

abbrev pub ends_with_slash : Text → Bool
ends_with_slash [] = false
ends_with_slash (c ∷ []) = c == b'/'
ends_with_slash (c ∷ d ∷ path) = ends_with_slash (d ∷ path)

abbrev pub with_slash : Text → Text
with_slash path = if ends_with_slash path then path else path ++ (b'/' ∷ [])

-- The loop of `listDir`: the paths that `printData` is called with, in their order. Every directory
-- can be opened here, and the paths fit their buffers.
unfoldable pub list_entries : Text → Directory → List Text
list_entries path finish = []
list_entries path (entry name is_dir inside rest) =
    let below = list_entries (with_slash (path ++ name)) inside in
    let others = list_entries path rest in
    if is_hidden name then others else ((if is_dir then below else []) ++ ((path ++ name) ∷ others))

-- `listDir`.
unfoldable pub list_dir : Text → Directory → List Text
unfolding list_entries
list_dir path dir = list_entries (with_slash path) dir
