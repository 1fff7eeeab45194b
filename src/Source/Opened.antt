-- ===== src/Source/Opened.antt =====
-- src/source.rs: the size that `open_for_read` reports.
use laterite_duckdb.Base.{
  Result, err, panic, true, false, refl, sym, ◌∙◌, ◌<>◌, if◌then◌else◌, ℕ, ◌≤◌, ◌≡◌, arith, String,
  Option, none, some, ltb, ok, guard-ok, subst,
}
use laterite_duckdb.Base.Int.{ℤ, pos, negsuc}
use laterite_duckdb.Base.Text.{has_nul}
use laterite_duckdb.Host.{Host}
use laterite_duckdb.Source.{max_file_bytes, check_size, sized, open_for_read, unless_ok, quoted}

le_of_ltb : (a b : ℕ) → ltb a b ≡ false → b ≤ a
le_of_ltb a b h = ground arith

module _ (H : Host) where
  check_size-le :
      (path : String) (handle : H.Handle) (reported : ℤ) (opened : H.Handle × ℕ)
      → check_size H path handle reported ≡ ok opened
      → opened.1 ≤ max_file_bytes H
  unfolding check_size
  check_size-le path handle (negsuc n) opened h = cc
  check_size-le path handle (pos size) opened h =
      let (within, same) = guard-ok (ltb (max_file_bytes H) size) _ (handle, size) opened h in
      let small : size ≤ max_file_bytes H = le_of_ltb (max_file_bytes H) size within in
      subst (λ (o : H.Handle × ℕ). o.1 ≤ max_file_bytes H) same small

  pub unless_ok-result :
      (handle : H.Handle) (r : Result (H.Handle × ℕ)) (w : H.World) → (unless_ok H handle r w).0 ≡ r
  unfolding unless_ok
  unless_ok-result handle (ok opened) w = refl
  unless_ok-result handle (err e) w = refl
  unless_ok-result handle panic w = refl

  sized-le :
      (path : String) (found : Option H.Handle) (w : H.World) (opened : H.Handle × ℕ)
      → (sized H path found w).0 ≡ ok opened
      → opened.1 ≤ max_file_bytes H
  unfolding sized
  sized-le path none w opened h = cc
  sized-le path (some handle) w opened h =
      let (size, w') = H.file_size handle w in
      check_size-le path handle size opened
        (sym (unless_ok-result handle (check_size H path handle size) w') ∙ h)

  -- A file that opens reports no more than the limit.
  pub open_for_read-le :
      (path : String) (w : H.World) (opened : H.Handle × ℕ)
      → (open_for_read H path w).0 ≡ ok opened
      → opened.1 ≤ max_file_bytes H
  unfolding open_for_read
  open_for_read-le path w opened h =
      let (handle, w') = H.open_file path (H.create_options w) in
      elim (has_nul path)
          as (λ b.
            (if b
                then (
                  err ("read_ags: path " <> (quoted path <> " contains an interior NUL byte")),
                  w,
                )
                else sized H path handle (H.destroy_options w')).0
              ≡ ok opened
            → opened.1 ≤ max_file_bytes H) [
              | true ↦ λ k. cc
              | false ↦ λ k. sized-le path handle (H.destroy_options w') opened k
            ]
        h
