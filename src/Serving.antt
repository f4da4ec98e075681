-- ===== src/Serving.antt =====
-- What serves a decoder: the key and value caches, contiguous and paged.
pub mod KvCache
pub mod PagedKv
