-- ===== src/Hash/Set.antt =====
-- `hash_set`: its loop finds a slot to write, and the write is an update of the map.
pub mod Target
pub mod Write
