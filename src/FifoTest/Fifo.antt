-- ===== src/FifoTest/Fifo.antt =====
-- What ps7/fifoTest.c assumes of a fifo: the contract of ps7/fifo.h.
use ece.Base.{
  ℕ, ◌<◌, ◌≡◌, ◌≢◌, List, [], ◌∷◌, ◌++◌, length, Option, none, some, ltb, if◌then◌else◌, arith,
  refl,
}

-- `MYFIFO_BUFSIZ`.
abbrev pub bufsiz : ℕ
bufsiz = 4096

-- `none` is where a call blocks.
pub record Fifo : Type 1 where
  pub State : Type 0
  pub contents : State → List ℕ
  pub init : State
  pub wr : State → ℕ → Option State
  pub rd : State → Option (ℕ × State)

-- A word is written behind those in the fifo, and the first is read; writing blocks only if the fifo is
-- full, and reading only if it is empty.
pub record IsFifo (F : Fifo) : Type 0 where
  pub contents-init : F.contents F.init ≡ []
  pub contents-wr :
      (s t : F.State) (d : ℕ) → F.wr s d ≡ some t → F.contents t ≡ F.contents s ++ (d ∷ [])
  pub contents-rd : (s t : F.State) (d : ℕ) → F.rd s ≡ some (d, t) → F.contents s ≡ d ∷ F.contents t
  pub room : (s : F.State) (d : ℕ) → length (F.contents s) < bufsiz → F.wr s d ≢ none
  pub ready : (s : F.State) → F.contents s ≢ [] → F.rd s ≢ none

-- A list has the contract.
abbrev queue_rd : List ℕ → Option (ℕ × List ℕ)
queue_rd [] = none
queue_rd (d ∷ ds) = some (d, ds)

abbrev pub queue : Fifo
queue = record {
  State = List ℕ;
  contents = λ s. s;
  init = [];
  wr = λ s d. if ltb (length s) bufsiz then some (s ++ (d ∷ [])) else none;
  rd = queue_rd;
}

queue_rd-contents : (s t : List ℕ) (d : ℕ) → queue_rd s ≡ some (d, t) → s ≡ d ∷ t
queue_rd-contents [] t d e = absurd (ground arith)
queue_rd-contents (c ∷ s) t d e = ground arith

queue_rd-ready : (s : List ℕ) → s ≢ [] → queue_rd s ≢ none
queue_rd-ready [] h e = h refl
queue_rd-ready (c ∷ s) h e = ground arith

pub queue-IsFifo : IsFifo queue
queue-IsFifo = record {
  contents-init = refl;
  contents-wr = λ s t d e. ground arith;
  contents-rd = queue_rd-contents;
  room = λ s d below e. ground arith;
  ready = queue_rd-ready;
}
