-- ===== src/Cert/Span.antt =====
-- The ranged read of src/cert.rs returns exactly the bytes of the span.
use laterite_duckdb.Base.{
  ℕ, zero, suc, ◌+◌, ◌-◌, ◌^◌, ◌≤◌, ◌<◌, ◌≡◌, refl, sym, ap, ◌∙◌, subst, arith, String, true, some,
  List, [], ◌∷◌, ◌++◌, length, take, drop, take-add, take_of_length-le, drop-drop, length-take,
  length-drop, le→ltb, lt→ltb, ltb, ok, inl, inr, Bool-cases,
}
use laterite_duckdb.Base.Int.{as_i64, pos}
use laterite_duckdb.Base.Attempt.{Attempt, forget_error, ◌>>=◌, >>=-give}
use laterite_duckdb.Engine.{Engine}
use laterite_duckdb.Host.{Host, IsFile}
use laterite_duckdb.Source.{seek}
use laterite_duckdb.Cert.{fill, read_group_span}
use native.Mathlib.Nat.{mod-eq_of_lt}

module _ (E : Engine) (H : Host) (word : ℕ) {handle : H.Handle} {content : List ℕ}
    (file : IsFile H handle content) where
  -- A position of the handle within the file.
  abbrev pub Placed : H.World → Type 0
  Placed w = (p : ℕ) × (p ≤ length content) × file.at p w

  slice : ℕ → ℕ → List ℕ
  slice start n = take n (drop start content)

  length-slice : (start n : ℕ) → start + n ≤ length content → length (slice start n) ≡ n
  unfolding slice
  length-slice start n h =
      omega (arith, length-take n (drop start content), length-drop start content)

  slice-append :
      (start n k : ℕ) → slice start n ++ take k (drop (start + n) content) ≡ slice start (n + k)
  unfolding slice
  slice-append start n k = rw (← drop-drop) (take-add n k (drop start content))

  fill_done :
      (fuel len : ℕ) (got : List ℕ) (w : H.World)
      → len ≤ length got
      → fill E H word fuel handle len got w ≡ (ok (some got), w)
  unfolding fill
  fill_done zero len got w h = rw (le→ltb (length got) len h)
  fill_done (suc fuel) len got w h = rw (le→ltb (length got) len h)

  fill_more :
      (fuel len : ℕ) (got : List ℕ) (w : H.World) (b : ℕ) (bs : List ℕ)
      → length got < len
      → length (b ∷ bs) ≤ len - length got
      → (H.file_read handle (len - length got) w).0 ≡ some (b ∷ bs)
      → fill E H word (suc fuel) handle len got w
        ≡ fill E H word fuel handle len (got ++ b ∷ bs) (H.file_read handle (len - length got) w).1
  fill_more fuel len got w b bs h room e =
      unfold fill in
      rw (lt→ltb (length got) len h, e, take_of_length-le (len - length got) (b ∷ bs) room, fill)

  -- The loop, started with the first `n` bytes of the span, fills in the rest.
  abbrev Fills : ℕ → ℕ → ℕ → ℕ → H.World → Type 0
  Fills start len fuel n w =
      ((fill E H word fuel handle len (slice start n) w).0 ≡ ok (some (slice start len)))
      × Placed (fill E H word fuel handle len (slice start n) w).1

  module _ (start len : ℕ) (room : start + len ≤ length content) where
    full : (fuel n : ℕ) (w : H.World) → n ≡ len → file.at (start + n) w → Fills start len fuel n w
    full fuel n w e here =
        let size = length-slice start n (omega arith) in
        rw (fill_done fuel len (slice start n) w (omega arith), e)
          (refl, (start + len, room, subst (λ m. file.at (start + m) w) e here))

    grown :
        (fuel n k : ℕ) (w : H.World) (got : List ℕ)
        → n < len
        → n + suc k ≤ len
        → (H.file_read handle (len - length (slice start n)) w).0 ≡ some got
        → got ≡ take (suc k) (drop (start + n) content)
        → Fills start len fuel (n + suc k) (H.file_read handle (len - length (slice start n)) w).1
        → Fills start len (suc fuel) n w
    grown fuel n k w [] h fits e same rec = absurd (
        omega (
          arith,
          ap length same,
          length-take (suc k) (drop (start + n) content),
          length-drop (start + n) content,
        ))
    grown fuel n k w (b ∷ bs) h fits e same rec =
        let size = length-slice start n (omega arith) in
        let few : length (b ∷ bs) ≤ suc k =
          omega (arith, ap length same, length-take (suc k) (drop (start + n) content)) in
        let more : slice start n ++ b ∷ bs ≡ slice start (n + suc k) =
          ap (◌++◌ (slice start n)) same ∙ slice-append start n (suc k) in
        rw
          (
            fill_more fuel len (slice start n) w b bs (omega (arith, size))
                (omega (arith, size, few)) e,
            more,
          )
          rec

    fill_file :
        (fuel n : ℕ) (w : H.World)
        → n ≤ len
        → len ≤ n + fuel
        → file.at (start + n) w
        → Fills start len fuel n w
    fill_file zero n w h k here = full zero n w (omega arith) here
    fill_file (suc fuel) n w h k here = elim (Bool-cases (ltb n len)) [
      | inr over ↦ full (suc fuel) n w (ground arith) here
      | inl more ↦
          let less : n < len = ground arith in
          let size = length-slice start n (omega arith) in
          let (m, few, inside, bytes, there, last) =
            file.read_at (len - length (slice start n)) (start + n) w (omega (arith, size))
              (omega arith) here in
          step fuel n m w less (omega (arith, few, size)) k inside bytes there last
            (fill_file fuel (n + m))
    ]
      where
        step :
            (fuel n m : ℕ) (w : H.World)
            → n < len
            → n + m ≤ len
            → len ≤ n + suc fuel
            → start + n + m ≤ length content
            → (H.file_read handle (len - length (slice start n)) w).0
              ≡ some (take m (drop (start + n) content))
            → file.at (start + n + m) (H.file_read handle (len - length (slice start n)) w).1
            → (m ≡ 0 → start + n ≡ length content)
            → ((w' : H.World)
                → n + m ≤ len
                → len ≤ n + m + fuel
                → file.at (start + (n + m)) w'
                → Fills start len fuel (n + m) w')
            → Fills start len (suc fuel) n w
        step fuel n zero w less fits enough inside bytes there last rec =
            absurd (omega (arith, last refl))
        step fuel n (suc m) w less fits enough inside bytes there last rec =
            let e : start + n + suc m ≡ start + (n + suc m) = omega arith in
            grown fuel n m w _ less fits bytes refl (
              rec _ fits (omega arith) (
                subst (λ p. file.at p (H.file_read handle (len - length (slice start n)) w).1) e
                  there))

  as_i64-pos : (n : ℕ) → n < 2 ^ 63 → as_i64 n ≡ pos n
  as_i64-pos n h = ground arith

  abbrev parse : String → List ℕ → Attempt H.World E.AgsGroup
  parse group buf w = (forget_error (E.parse_group_slice buf (0, length buf) group), w)

  abbrev fill_and_parse : ℕ → String → Attempt H.World E.AgsGroup
  fill_and_parse len group = do buf ← fill E H word len handle len []; parse group buf

  slice_zero : (start : ℕ) → [] ≡ slice start 0
  unfolding slice
  slice_zero start = refl

  parse_span :
      (start len : ℕ) (group : String) (w : H.World)
      → start + len ≤ length content
      → file.at start w
      → ((fill_and_parse len group w).0
          ≡ forget_error (E.parse_group_slice (slice start len) (0, len) group))
        × Placed (fill_and_parse len group w).1
  parse_span start len group w room here =
      let e : start ≡ start + 0 = omega arith in
      let at_start = subst (λ q. file.at q w) e here in
      let (done, placed) =
        subst
          (λ got.
            ((fill E H word len handle len got w).0 ≡ ok (some (slice start len)))
            × Placed (fill E H word len handle len got w).1)
          (sym (slice_zero start))
          (fill_file start len room len 0 w (omega arith) (omega arith) at_start) in
      rw
        (
          >>=-give (fill E H word len handle len []) (parse group) w (slice start len) done,
          length-slice start len room,
        )
        (refl, placed)

  read_group_span_lem :
      (size start end : ℕ) (group : String) (w : H.World)
      → start ≤ end
      → end ≤ size
      → end - start < word
      → start < 2 ^ 63
      → (H.file_seek handle (pos start) w).0 ≡ true
      → read_group_span E H word handle size (start, end) group w
        ≡ fill_and_parse (end - start) group (H.file_seek handle (pos start) w).1
  unfolding read_group_span seek
  read_group_span_lem size start end group w h k fits small sought =
      rw (le→ltb end start h, le→ltb size end k, mod-eq_of_lt fits, as_i64-pos start small, sought)

  -- On a regular file a span within a reported size that is no more than the file's, and less than
  -- 2 ^ 63 and a `usize`, gives what the parser makes of exactly its bytes, however the reads
  -- split them, and leaves the handle within the file.
  pub read_group_span_file :
      (size start end : ℕ) (group : String) (w : H.World)
      → Placed w
      → start ≤ end
      → end ≤ size
      → size ≤ length content
      → size < 2 ^ 63
      → size < word
      → ((read_group_span E H word handle size (start, end) group w).0
          ≡ forget_error (
              E.parse_group_slice (take (end - start) (drop start content)) (0, end - start) group))
        × Placed (read_group_span E H word handle size (start, end) group w).1
  unfolding slice
  read_group_span_file size start end group w (p, inside, here) ordered ends within small
        word_room =
      let (sought, there) = file.seek_at p start w (omega arith) here in
      rw
        (read_group_span_lem size start end group w ordered ends (omega arith) (omega arith) sought)
        (parse_span start (end - start) group (H.file_seek handle (pos start) w).1 (omega arith)
          there)
