-- ===== src/Mmap/Answers.antt =====
-- The answers of ps5/main.c to its questions B and C.
use ece.Base.{
  ℕ, ◌+◌, ◌<◌, ◌≡◌, ◌≢◌, refl, ap, sym, ◌∙◌, Bool, true, false, List, [], ◌∷◌, get_elem?, Option,
  none, some, ◌==◌, ltb, if◌then◌else◌, arith,
}
use ece.Mmap.Calls.{
  Calls, Sharing, shared, private, in_pages, IsPosix, NoFailure, Appended, Mapped, Stored,
}
use ece.Mmap.Questions.{ok, buf_0, test_text, ◌>>=◌, ◌>>◌, update_visible}

-- What a call that does not fail gives.
pub data Success {A : Type 0} (o : Option A) : Type 0 where
  gives : (a : A) → o ≡ some a → Success o

pub succeeds : {A : Type 0} (o : Option A) → o ≢ none → Success o
succeeds none h = absurd (h refl)
succeeds (some a) h = gives a refl

abbrev pub is_shared : Sharing → Bool
is_shared shared = true
is_shared private = false

head_buf : (bytes : List ℕ) (junk c : ℕ) → get_elem? bytes 0 ≡ some c → buf_0 junk bytes ≡ c
head_buf [] junk c e = absurd (ground arith)
head_buf (b ∷ bytes) junk c e = ground arith

zero_size : (n m : ℕ) → n ≡ m → m ≡ 14 → n ≡ 0 → ⊥
zero_size n m e f g = omega arith

by_size : (m : ℕ) → m ≡ 14 → 1 < m
by_size m e = omega arith

module _ (O : Calls) where
  -- The file's first byte, behind an assignment to the first two.
  first_byte :
      (how : Sharing) (s t u : O.State)
      → O.byte s 0 ≡ some b't'
      → 1 < O.size s
      → O.sharing s ≡ how
      → Stored O s t 0 b'h'
      → Stored O t u 1 0
      → O.byte u 0 ≡ some (if is_shared how then b'h' else b't')
  first_byte shared s t u starts big is first second =
      let below : 1 < O.size t = omega (arith, first.size_kept) in
      second.shared_bytes (first.sharing_kept ∙ is) below 0 ∙ first.shared_bytes is (omega arith) 0
  first_byte private s t u starts big is first second =
      second.private_bytes (first.sharing_kept ∙ is) 0 ∙ first.private_bytes is 0 ∙ starts

  -- The file with the text, and a mapping of it.
  text_first :
      (s t : O.State)
      → O.size s ≡ 0
      → Appended O s t test_text
      → (O.size t ≡ 14) × (O.byte t 0 ≡ some b't') × (O.byte t 1 ≡ some b'h')
  text_first s t empty text =
      (omega (arith, text.longer), ground (arith, text.each 0), ground (arith, text.each 1))

  Mapped-page :
      (s t : O.State) (how : Sharing) (j : ℕ)
      → Mapped O s t how
      → O.size s ≡ 14
      → j < 2
      → O.page t j ≡ O.byte s j
  Mapped-page s t how j maps size low =
      let inside : j < in_pages (O.size s) = omega arith in ground (arith, maps.pages j inside)

  pub is_some : (o : Option ℕ) (c : ℕ) → o ≡ some c → o ≢ none
  is_some o c e h = ground arith

  -- What `buf[0]` is, by the file's first byte.
  read_first :
      (s t : O.State) (bytes : List ℕ) (junk c : ℕ)
      → O.position s ≡ 0
      → O.byte s 0 ≡ some c
      → ((i : ℕ) → get_elem? bytes i ≡ (if ltb i 1 then O.byte s (O.position s + i) else none))
      → buf_0 junk bytes ≡ c
  read_first s t bytes junk c start is got =
      let at : O.position s + 0 ≡ 0 = omega arith in
      let head : get_elem? bytes 0 ≡ some c = got 0 ∙ ap (O.byte s) at ∙ is in
      head_buf bytes junk c head

  -- A run without a failure.
  update_visible-ok :
      (how : Sharing) (junk n c : ℕ) (bytes : List ℕ) (s s1 s2 s3 s4 s5 s6 s7 s8 : O.State)
      → O.create s ≡ some s1
      → O.write test_text s1 ≡ some s2
      → O.fstat s2 ≡ some n
      → O.mmap how n s2 ≡ some s3
      → O.store 0 b'h' s3 ≡ some s4
      → O.store 1 0 s4 ≡ some s5
      → O.seek_set 0 s5 ≡ some s6
      → O.read 1 s6 ≡ some (bytes, s7)
      → O.page s7 0 ≡ some c
      → O.close s7 ≡ some s8
      → update_visible O how junk s ≡ ok (buf_0 junk bytes == c, s8)
  unfolding update_visible
  update_visible-ok how junk n c bytes s s1 s2 s3 s4 s5 s6 s7 s8 e1 e2 e3 e4 e5 e6 e7 e8 e9 e10 =
      rw (e1, e2, e3, e4, e5, e6, e7, e8, e9, e10, ◌>>=◌, ◌>>◌)

  seen : (how : Sharing) → ((if is_shared how then b'h' else b't') == b'h') ≡ is_shared how
  seen shared = refl
  seen private = refl

module _ (O : Calls) (law : IsPosix O) (nf : NoFailure O) where
  -- The file with the text and its mapping.
  pub record Made (how : Sharing) (s : O.State) : Type 0 where
    pub s1 : O.State
    pub s2 : O.State
    pub s3 : O.State
    pub n : ℕ
    pub create : O.create s ≡ some s1
    pub write : O.write test_text s1 ≡ some s2
    pub stat : O.fstat s2 ≡ some n
    pub map : O.mmap how n s2 ≡ some s3
    pub size : 1 < O.size s3
    pub byte0 : O.byte s3 0 ≡ some b't'
    pub shares : O.sharing s3 ≡ how
    pub page0 : O.page s3 0 ≡ some b't'
    pub page1 : O.page s3 1 ≡ some b'h'

  makes : (how : Sharing) (s : O.State) → Made how s
  makes how s = elim (succeeds (O.create s) (nf.creates s)) [
    | gives s1 e1 ↦
        let (empty, at_start) = law.created s s1 e1 in
        elim (succeeds (O.write test_text s1) (nf.writes s1 test_text)) [
          | gives s2 e2 ↦
              let text = law.appended s1 s2 test_text (at_start ∙ sym empty) e2 in
              let (size2, b0, b1) = text_first O s1 s2 empty text in
              elim (succeeds (O.fstat s2) (nf.stats s2)) [
                | gives n e3 ↦
                    let is_size = law.stat_size s2 n e3 in
                    elim (succeeds (O.mmap how n s2)
                      (nf.maps s2 how n (zero_size n (O.size s2) is_size size2))) [
                        | gives s3 e4 ↦
                            let maps = law.mapped s2 s3 how n e4 (omega (arith, is_size)) in
                            record {
                              s1 = s1;
                              s2 = s2;
                              s3 = s3;
                              n = n;
                              create = e1;
                              write = e2;
                              stat = e3;
                              map = e4;
                              size = by_size (O.size s3) (maps.size_kept ∙ size2);
                              byte0 = maps.byte_kept 0 ∙ b0;
                              shares = maps.shares;
                              page0 = Mapped-page O s2 s3 how 0 maps size2 (omega arith) ∙ b0;
                              page1 = Mapped-page O s2 s3 how 1 maps size2 (omega arith) ∙ b1;
                            }
                      ]
              ]
        ]
  ]

  -- The assignments of `sprintf`, and what is read then.
  pub record Compared (how : Sharing) (junk : ℕ) (s3 : O.State) : Type 0 where
    pub s4 : O.State
    pub s5 : O.State
    pub s6 : O.State
    pub s7 : O.State
    pub s8 : O.State
    pub bytes : List ℕ
    pub put : O.store 0 b'h' s3 ≡ some s4
    pub put' : O.store 1 0 s4 ≡ some s5
    pub seek : O.seek_set 0 s5 ≡ some s6
    pub read : O.read 1 s6 ≡ some (bytes, s7)
    pub close : O.close s7 ≡ some s8
    pub page0 : O.page s7 0 ≡ some b'h'
    pub buf : buf_0 junk bytes ≡ (if is_shared how then b'h' else b't')

  reads_back :
      (how : Sharing) (junk : ℕ) (s3 s4 s5 : O.State)
      → O.store 0 b'h' s3 ≡ some s4
      → O.store 1 0 s4 ≡ some s5
      → O.page s5 0 ≡ some b'h'
      → O.byte s5 0 ≡ some (if is_shared how then b'h' else b't')
      → Compared how junk s3
  reads_back how junk s3 s4 s5 e5 e6 page byte = elim (succeeds (O.seek_set 0 s5) (nf.seeks s5 0)) [
    | gives s6 e7 ↦
        let (seeks, at6) = law.sought s5 s6 0 e7 in
        elim (succeeds (O.read 1 s6) (nf.reads s6 1)) [
          | gives (bytes, s7) e8 ↦
              let (reads, got) = law.got s6 s7 1 bytes e8 in
              elim (succeeds (O.close s7) (nf.closes s7)) [
                | gives s8 e9 ↦ record {
                  s4 = s4;
                  s5 = s5;
                  s6 = s6;
                  s7 = s7;
                  s8 = s8;
                  bytes = bytes;
                  put = e5;
                  put' = e6;
                  seek = e7;
                  read = e8;
                  close = e9;
                  page0 = reads.page_kept 0 ∙ seeks.page_kept 0 ∙ page;
                  buf =
                      read_first O s6 s7 bytes junk (if is_shared how then b'h' else b't') at6
                        (seeks.byte_kept 0 ∙ byte) got;
                }
              ]
        ]
  ]

  compares : (how : Sharing) (junk : ℕ) (s : O.State) (v : Made how s) → Compared how junk v.s3
  compares how junk s v =
      elim (succeeds (O.store 0 b'h' v.s3)
        (law.stores v.s3 0 b'h' (is_some O (O.page v.s3 0) b't' v.page0))) [
          | gives s4 e5 ↦
              let put = law.stored v.s3 s4 0 b'h' e5 in
              elim (succeeds (O.store 1 0 s4)
                (law.stores s4 1 0 (is_some O (O.page s4 1) b'h' (put.pages 1 ∙ v.page1)))) [
                  | gives s5 e6 ↦
                      let put' = law.stored s4 s5 1 0 e6 in
                      reads_back how junk v.s3 s4 s5 e5 e6 (put'.pages 0 ∙ put.pages 0)
                        (first_byte O how v.s3 s4 s5 v.byte0 v.size v.shares put put')
                ]
        ]

  -- Where no call fails, questions B and C come to an answer: an update through the mapping is visible
  -- in the file if the mapping is shared, and not if it is private.
  pub update_visible_lem :
      (how : Sharing) (junk : ℕ) (s : O.State)
      → (t : O.State) × (update_visible O how junk s ≡ ok (is_shared how, t))
  update_visible_lem how junk s =
      let v = makes how s in
      let c = compares how junk s v in
      (
        c.s8,
        update_visible-ok O how junk v.n b'h' c.bytes s v.s1 v.s2 v.s3 c.s4 c.s5 c.s6 c.s7 c.s8
              v.create v.write v.stat v.map c.put c.put' c.seek c.read c.page0 c.close
            ∙ ap (λ (b : ℕ). ok (b == b'h', c.s8)) c.buf
            ∙ ap (λ (b : Bool). ok (b, c.s8)) (seen O how),
      )
