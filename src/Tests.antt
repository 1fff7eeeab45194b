-- ===== src/Tests.antt =====
-- Concrete inputs on which the theorems about src/cache.rs, src/source.rs, src/cert.rs,
-- src/ffi_table.rs, src/lib.rs, src/meta.rs, src/dict_fns.rs and the producers are applied.
mod Caching
mod Files
mod Tables
mod Dictionaries
mod Registration
mod Queries
mod Recency
mod Vectors
