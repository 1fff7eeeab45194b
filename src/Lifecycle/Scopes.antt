-- ===== src/Lifecycle/Scopes.antt =====
-- src/source.rs and src/cert.rs: the scopes of a `Vfs` and of a `FileHandle`.
use laterite_duckdb.Base.{
  ℕ, ◌≡◌, refl, String, Bool, true, false, Option, none, some, Result, ok, err, panic, Bool-cases,
  inl, inr,
}
use laterite_duckdb.Base.Attempt.{ok_of}
use laterite_duckdb.Base.Io.{Io}
use laterite_duckdb.Base.Text.{has_nul}
use laterite_duckdb.Cert.{load_sidecar, slice_open, sliced_group, idx_path_for}
use laterite_duckdb.Engine.{Engine}
use laterite_duckdb.Host.{Host}
use laterite_duckdb.Lifecycle.{Held, idle, bound, opened, traced, Account}
use laterite_duckdb.Lifecycle.Rules.{
  Stays-still, Stays-attempt, Stays-ok_of, Moves, Acquires, if_ok, Stays-scope, Stays-attempt_scope,
}
use laterite_duckdb.Lifecycle.Files.{
  StaysOpened, StaysBound, slurp-StaysOpened, slice_open-StaysOpened,
}
use laterite_duckdb.Source.{
  checked_file_system, from_bind, drop_vfs, closing, check_size, unless_ok, sized, open_for_read,
  slurp, read_bytes,
}

module _ (H : Host) where
  abbrev L : Host
  L = traced H

  abbrev held : Account H → Held
  held w = w.0

  -- The end of a handle.
  closing-Moves :
      {A : Type 0} (handle : H.Handle) (m : Io (Account H) A)
      → StaysOpened H m
      → Moves held opened bound (closing L handle m)
  unfolding closing
  closing-Moves handle m k = record { run = λ w h. rw (k.run w h) refl }

  abbrev with_context : Held
  with_context = record idle { contexts = 1 }

  checked_file_system-Acquires :
      (found : Bool) (w : Account H)
      → (H.file_system w.1).0 ≡ found
      → held w ≡ with_context
      → held (checked_file_system L w).1 ≡ if_ok bound idle (checked_file_system L w).0
  unfolding checked_file_system
  checked_file_system-Acquires true w e h = rw (e, checked_file_system, h) refl
  checked_file_system-Acquires false w e h = rw (e, checked_file_system, h) refl

  from_bind_found :
      (w : Account H)
      → (H.client_context w.1).0 ≡ true
      → from_bind L w ≡ checked_file_system L (L.client_context w).1
  from_bind_found w e = unfold from_bind in rw (e, from_bind) refl

  client_context_found :
      (w : Account H)
      → (H.client_context w.1).0 ≡ true
      → held w ≡ idle
      → held (L.client_context w).1 ≡ with_context
  client_context_found w e h = rw (e, h) refl

  from_bind-end :
      (found : Bool) (w : Account H)
      → (H.client_context w.1).0 ≡ found
      → held w ≡ idle
      → held (from_bind L w).1 ≡ if_ok bound idle (from_bind L w).0
  from_bind-end true w e h =
      rw (from_bind_found w e)
        (checked_file_system-Acquires _ (L.client_context w).1 refl (client_context_found w e h))
  from_bind-end false w e h = unfold from_bind in rw (e, from_bind, h) refl

  pub from_bind-Acquires : Acquires held idle bound (from_bind L)
  from_bind-Acquires = record { run = λ w h. from_bind-end _ w refl h }

  pub drop_vfs_lem : (w : Account H) → held w ≡ bound → held (drop_vfs L w) ≡ idle
  unfolding drop_vfs
  drop_vfs_lem w h = rw h refl

  unless_ok-end :
      (handle : H.Handle) (r : Result (H.Handle × ℕ)) (w : Account H)
      → held w ≡ opened
      → held (unless_ok L handle r w).1 ≡ if_ok opened bound (unless_ok L handle r w).0
  unfolding unless_ok
  unless_ok-end handle (ok x) w h = h
  unless_ok-end handle (err e) w h = rw h refl
  unless_ok-end handle panic w h = rw h refl

  sized-end :
      (path : String) (handle : Option H.Handle) (w : Account H)
      → held w ≡ elim handle [ none ↦ bound | some h ↦ opened ]
      → held (sized L path handle w).1 ≡ if_ok opened bound (sized L path handle w).0
  unfolding sized
  sized-end path none w h = h
  sized-end path (some handle) w h =
      unless_ok-end handle (check_size L path handle (L.file_size handle w).0)
        (L.file_size handle w).1 (rw h refl)

  -- What the account holds once the options are gone.
  after_open :
      (path : String) (handle : Option H.Handle) (w : Account H)
      → (H.open_file path (H.create_options w.1)).0 ≡ handle
      → held w ≡ bound
      → held (L.destroy_options (L.open_file path (L.create_options w)).1)
        ≡ elim handle [ none ↦ bound | some h ↦ opened ]
  after_open path none w e h = rw (e, h) refl
  after_open path (some handle) w e h = rw (e, h) refl

  open_for_read-end :
      (path : String) (w : Account H)
      → held w ≡ bound
      → held (open_for_read L path w).1 ≡ if_ok opened bound (open_for_read L path w).0
  open_for_read-end path w h = elim (Bool-cases (has_nul path)) [
    | inl e ↦ unfold open_for_read in rw (e, open_for_read) h
    | inr e ↦
        unfold open_for_read in
        rw (e, open_for_read) (sized-end path _ _ (after_open path _ w refl h))
  ]

  pub open_for_read-Acquires : (path : String) → Acquires held bound opened (open_for_read L path)
  open_for_read-Acquires path = record { run = open_for_read-end path }

  read_bytes-StaysBound : (path : String) → StaysBound H (read_bytes L path)
  unfolding read_bytes
  read_bytes-StaysBound path =
      Stays-scope held bound opened (open_for_read L path) (open_for_read-Acquires path)
        (λ o. closing-Moves o.0 (slurp L o.0 path o.1) (slurp-StaysOpened H o.0 path o.1))

  module _ (E : Engine) (word : ℕ) where
    load_sidecar-StaysBound : (path : String) → StaysBound H (load_sidecar E L word path)
    unfolding load_sidecar
    load_sidecar-StaysBound path =
        Stays-attempt held bound (ok_of (read_bytes L (idx_path_for path)))
          (Stays-ok_of held bound _ (read_bytes-StaysBound (idx_path_for path)))
          (λ json. Stays-still held bound _)

    pub sliced_group-StaysBound :
        (path group : String) → StaysBound H (sliced_group E L word path group)
    unfolding sliced_group
    sliced_group-StaysBound path group =
        Stays-attempt held bound (load_sidecar E L word path) (load_sidecar-StaysBound path)
          (λ sidecar.
            Stays-attempt_scope held bound opened (open_for_read L path)
              (open_for_read-Acquires path)
              (λ o.
                closing-Moves o.0 (slice_open E L word sidecar o.0 o.1 group)
                  (slice_open-StaysOpened H E word sidecar o.0 o.1 group)))
