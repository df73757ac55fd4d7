-- ===== src/Discovery.antt =====
-- packages/discovery/src: the search for nodes.
pub mod FetchNodes
