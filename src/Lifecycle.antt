-- ===== src/Lifecycle.antt =====
-- What src/source.rs holds of DuckDB's: a host that keeps the account of every host. It counts the
-- client contexts, file systems, open options and file handles that are open, and each use of one
-- that is not open or that is given back before what was made from it.
pub mod Rules
pub mod Files
pub mod Scopes
pub mod Reads
pub mod Queries
use laterite_duckdb.Base.{
  ℕ, ◌+◌, ◌-◌, ◌≡◌, refl, ap, ◌∙◌, String, Bool, true, false, ◌&&◌, Option, none, some, ◌==◌,
  nat_eq, not, if◌then◌else◌, Result, ok, err, panic,
}
use laterite_duckdb.Host.{Host}

pub record Held : Type 0 where
  pub contexts : ℕ
  pub systems : ℕ
  pub options : ℕ
  pub handles : ℕ
  pub misuses : ℕ

abbrev pub idle : Held
idle = record { contexts = 0; systems = 0; options = 0; handles = 0; misuses = 0 }

-- While a `Vfs` lives, and while a `FileHandle` does too.
abbrev pub bound : Held
bound = record idle { contexts = 1; systems = 1 }

abbrev pub opened : Held
opened = record bound { handles = 1 }

-- A call that is allowed under a condition.
abbrev pub provided : Bool → Held → Held
provided allowed a = if allowed then a else record a { misuses = a.misuses + 1 }

abbrev some_open : ℕ → Bool
some_open n = not (n == 0)

abbrev got : {A : Type 0} → Option A → Bool
got none = false
got (some a) = true

module _ (H : Host) where
  open H use {World, Handle}

  abbrev pub Account : Type 0
  Account = Held × World

  abbrev asks_context : Account → Bool × Account
  asks_context (a, w) =
      let (found, w') = H.client_context w in
      (found, (if found then record a { contexts = a.contexts + 1 } else a, w'))

  abbrev asks_system : Account → Bool × Account
  asks_system (a, w) =
      let (found, w') = H.file_system w in
      let b = provided (some_open a.contexts) a in
      (found, (if found then record b { systems = b.systems + 1 } else b, w'))

  abbrev makes_options : Account → Account
  makes_options (a, w) = (record a { options = a.options + 1 }, H.create_options w)

  abbrev drops_options : Account → Account
  drops_options (a, w) =
      let b = provided (some_open a.options) a in
      (record b { options = b.options - 1 }, H.destroy_options w)

  abbrev opens : String → Account → Option Handle × Account
  opens path (a, w) =
      let (handle, w') = H.open_file path w in
      let b = provided (some_open a.systems && some_open a.options) a in
      (handle, (if got handle then record b { handles = b.handles + 1 } else b, w'))

  -- A call on a handle.
  abbrev on_handle : {A : Type 0} → (World → A × World) → Account → A × Account
  on_handle m (a, w) = let (r, w') = m w in (r, (provided (some_open a.handles) a, w'))

  abbrev drops_handle : Handle → Account → Account
  drops_handle handle (a, w) =
      let b = provided (some_open a.handles) a in
      (record b { handles = b.handles - 1 }, H.destroy_handle handle w)

  abbrev drops_system : Account → Account
  drops_system (a, w) =
      let b = provided (some_open a.systems && a.handles == 0) a in
      (record b { systems = b.systems - 1 }, H.destroy_file_system w)

  abbrev drops_context : Account → Account
  drops_context (a, w) =
      let b = provided (some_open a.contexts && a.systems == 0) a in
      (record b { contexts = b.contexts - 1 }, H.destroy_context w)

  -- The host, with the account beside its world.
  abbrev pub traced : Host
  traced = record {
    World = Account;
    Handle = Handle;
    env_var = H.env_var;
    client_context = asks_context;
    file_system = asks_system;
    create_options = makes_options;
    destroy_options = drops_options;
    open_file = opens;
    file_size = λ handle. on_handle (H.file_size handle);
    file_read = λ handle n. on_handle (H.file_read handle n);
    file_seek = λ handle position. on_handle (H.file_seek handle position);
    destroy_handle = drops_handle;
    destroy_file_system = drops_system;
    destroy_context = drops_context;
  }
