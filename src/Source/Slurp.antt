-- ===== src/Source/Slurp.antt =====
-- The slurp of src/source.rs ends on every stream within its fuel, and reads a regular file whole.
use laterite_duckdb.Base.{
  ℕ, zero, suc, ◌+◌, ◌≤◌, ◌<◌, ◌≡◌, refl, ◌∙◌, ap, String, false, Option, none, some, List, [], ◌∷◌,
  ◌++◌, ltb, length, take, drop, take-add, length-append, length-take, length-drop,
  take_of_length-le, if◌then◌else◌, Result, ok, err, panic, arith, Bool-cases, inl, inr, le→ltb,
}
use laterite_duckdb.Base.Io.{continue}
use laterite_duckdb.Host.{Host, ReadsFit, IsFile}
use laterite_duckdb.Source.{
  max_file_bytes, read_chunk_bytes, slurp_loop, check_length, slurp, over_limit,
}

-- What holds of a list of bytes that was returned; a panic is excluded, and an error is allowed.
abbrev pub Returns : (List ℕ → Type 0) → Result (List ℕ) → Type 0
Returns P (ok bytes) = P bytes
Returns P (err e) = Unit
Returns P panic = ⊥

module _ (H : Host) (fit : ReadsFit H) where
  open H use {World, Handle, file_read}

  -- One round of the loop, by what the read gives.
  round_error :
      (fuel : ℕ) (handle : Handle) (path : String) (buf : List ℕ) (w : World)
      → (file_read handle read_chunk_bytes w).0 ≡ none
      → slurp_loop H (suc fuel) handle path buf w
        ≡ (err "read_ags: read error", (file_read handle read_chunk_bytes w).1)
  unfolding slurp_loop
  round_error fuel handle path buf w e = rw (e, slurp_loop)

  round_end :
      (fuel : ℕ) (handle : Handle) (path : String) (buf : List ℕ) (w : World)
      → (file_read handle read_chunk_bytes w).0 ≡ some []
      → slurp_loop H (suc fuel) handle path buf w
        ≡ (ok buf, (file_read handle read_chunk_bytes w).1)
  unfolding slurp_loop
  round_end fuel handle path buf w e = rw (e, slurp_loop)

  round_more :
      (fuel : ℕ) (handle : Handle) (path : String) (buf : List ℕ) (w : World) (b : ℕ) (bs : List ℕ)
      → (file_read handle read_chunk_bytes w).0 ≡ some (b ∷ bs)
      → slurp_loop H (suc fuel) handle path buf w ≡ (
          if ltb (max_file_bytes H) (length buf + length (b ∷ bs))
          then (err (over_limit H path), (file_read handle read_chunk_bytes w).1)
          else slurp_loop H fuel handle path
              (buf ++ b ∷ bs)
              (file_read handle read_chunk_bytes w).1)
  round_more fuel handle path buf w b bs e =
      let short = fit.within handle read_chunk_bytes w (b ∷ bs) e in
      unfold slurp_loop in rw (e, slurp_loop) (ground arith)

  slurp_loop-Returns :
      (fuel : ℕ) (handle : Handle) (path : String) (buf : List ℕ) (w : World)
      → length buf ≤ max_file_bytes H
      → max_file_bytes H + 2 ≤ length buf + fuel
      → Returns (λ out. length out ≤ max_file_bytes H) (slurp_loop H fuel handle path buf w).0
  slurp_loop-Returns zero handle path buf w h k = absurd (omega arith)
  slurp_loop-Returns (suc fuel) handle path buf w h k =
      go (file_read handle read_chunk_bytes w).0 refl (slurp_loop-Returns fuel handle path)
    where
      go :
          (r : Option (List ℕ))
          → (file_read handle read_chunk_bytes w).0 ≡ r
          → ((buf' : List ℕ) (w' : World)
              → length buf' ≤ max_file_bytes H
              → max_file_bytes H + 2 ≤ length buf' + fuel
              → Returns
                  (λ out. length out ≤ max_file_bytes H)
                  (slurp_loop H fuel handle path buf' w').0)
          → Returns
              (λ out. length out ≤ max_file_bytes H)
              (slurp_loop H (suc fuel) handle path buf w).0
      go none e rec = rw (round_error fuel handle path buf w e) tt
      go (some []) e rec = rw (round_end fuel handle path buf w e) h
      go (some (b ∷ bs)) e rec =
          rw (round_more fuel handle path buf w b bs e)
            (elim (Bool-cases (ltb (max_file_bytes H) (length buf + length (b ∷ bs)))) [
              | inl over ↦ rw over tt
              | inr within ↦
                  let grown = length-append buf (b ∷ bs) in
                  rw within (
                    rec (buf ++ b ∷ bs) (file_read handle read_chunk_bytes w).1 (ground arith)
                      (omega arith))
            ])

  check_length-Returns :
      (path : String) (size limit : ℕ) (buf : List ℕ)
      → length buf ≤ limit
      → Returns (λ out. (size ≤ length out) × (length out ≤ limit)) (check_length H path size buf)
  unfolding check_length
  check_length-Returns path size limit buf h = elim (Bool-cases (ltb (length buf) size)) [
    | inl short ↦ rw short tt
    | inr enough ↦ rw enough (ground arith, h)
  ]

  finish-Returns :
      (path : String) (size limit : ℕ) (r : Result (List ℕ)) (w : World)
      → Returns (λ out. length out ≤ limit) r
      → Returns
          (λ out. (size ≤ length out) × (length out ≤ limit))
          (continue r (λ buf w'. (check_length H path size buf, w')) w).0
  finish-Returns path size limit (ok buf) w h = check_length-Returns path size limit buf h
  finish-Returns path size limit (err e) w h = tt
  finish-Returns path size limit panic w h = h

  finish_ok :
      (path : String) (size : ℕ) (buf : List ℕ) (r : Result (List ℕ)) (w : World)
      → r ≡ ok buf
      → size ≤ length buf
      → (continue r (λ buf w'. (check_length H path size buf, w')) w).0 ≡ ok buf
  finish_ok path size buf r w e h = unfold check_length in rw (e, le→ltb _ _ h)

  -- A slurp whose reads stay within the buffer never panics and always ends, whatever the stream
  -- delivers; bytes that it returns are at least as many as the reported size and at most the
  -- limit.
  pub slurp-Returns :
      (handle : Handle) (path : String) (size : ℕ) (w : World)
      → Returns
          (λ out. (size ≤ length out) × (length out ≤ max_file_bytes H))
          (slurp H handle path size w).0
  unfolding slurp
  slurp-Returns handle path size w =
      finish-Returns path size (max_file_bytes H) _ _
        (slurp_loop-Returns (max_file_bytes H + 2) handle path [] w (omega arith) (omega arith))

module _ (H : Host) {handle : H.Handle} {content : List ℕ} (file : IsFile H handle content)
    (path : String) where
  round_file :
      (fit : ReadsFit H) (fuel p k : ℕ) (w : H.World) (got : List ℕ)
      → length content ≤ max_file_bytes H
      → p + suc k ≤ length content
      → (H.file_read handle read_chunk_bytes w).0 ≡ some got
      → got ≡ take (suc k) (drop p content)
      → (slurp_loop H fuel handle path
          (take (p + suc k) content)
          (H.file_read handle read_chunk_bytes w).1).0
        ≡ ok content
      → (slurp_loop H (suc fuel) handle path (take p content) w).0 ≡ ok content
  round_file fit fuel p k w [] small room e same rec =
      absurd
        (omega (arith, ap length same, length-take (suc k) (drop p content), length-drop p content))
  round_file fit fuel p k w (b ∷ bs) small room e same rec =
      let grown : take p content ++ b ∷ bs ≡ take (p + suc k) content =
        ap (◌++◌ (take p content)) same ∙ take-add p (suc k) content in
      let fits : ltb (max_file_bytes H) (length (take p content) + length (b ∷ bs)) ≡ false =
        le→ltb _ _ (
          omega (
            arith,
            length-take p content,
            ap length same,
            length-take (suc k) (drop p content),
            length-drop p content,
          )) in
      rw (round_more H fit fuel handle path (take p content) w b bs e, fits, grown) rec

  -- A regular file of at most the limit is read whole, however the reads split it.
  slurp_loop_file :
      (fit : ReadsFit H) (fuel p : ℕ) (w : H.World)
      → length content ≤ max_file_bytes H
      → p ≤ length content
      → length content < p + fuel
      → file.at p w
      → (slurp_loop H fuel handle path (take p content) w).0 ≡ ok content
  slurp_loop_file fit zero p w small inside enough here = absurd (omega arith)
  slurp_loop_file fit (suc fuel) p w small inside enough here =
      let (k, few, room, bytes, there, last) =
        file.read_at read_chunk_bytes p w (omega arith) inside here in
      go k few room bytes there last (slurp_loop_file fit fuel (p + k))
    where
      go :
          (k : ℕ)
          → k ≤ read_chunk_bytes
          → p + k ≤ length content
          → (H.file_read handle read_chunk_bytes w).0 ≡ some (take k (drop p content))
          → file.at (p + k) (H.file_read handle read_chunk_bytes w).1
          → (k ≡ 0 → p ≡ length content)
          → ((w' : H.World)
              → length content ≤ max_file_bytes H
              → p + k ≤ length content
              → length content < p + k + fuel
              → file.at (p + k) w'
              → (slurp_loop H fuel handle path (take (p + k) content) w').0 ≡ ok content)
          → (slurp_loop H (suc fuel) handle path (take p content) w).0 ≡ ok content
      go zero few room bytes there last rec =
          rw (round_end H fit fuel handle path (take p content) w bytes)
            (ap ok (take_of_length-le p content (omega (arith, last refl))))
      go (suc k) few room bytes there last rec =
          round_file fit fuel p k w (take (suc k) (drop p content)) small room bytes refl
            (rec (H.file_read handle read_chunk_bytes w).1 small room (omega arith) there)

  -- A regular file of at most the limit, whose reported size is its length, behind reads that stay
  -- within the buffer, is read whole, however the reads split it.
  pub slurp_file :
      (w : H.World)
      → ReadsFit H
      → length content ≤ max_file_bytes H
      → file.at 0 w
      → (slurp H handle path (length content) w).0 ≡ ok content
  unfolding slurp
  slurp_file w fit small here =
      finish_ok H fit path (length content) content _ _
        (slurp_loop_file fit (max_file_bytes H + 2) 0 w small (omega arith) (omega arith) here)
        (omega arith)
