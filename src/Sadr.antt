-- ===== src/Sadr.antt =====
-- The source-address-dependent forwarding table, sadr/table.go.
pub mod Address
pub mod Sources
pub mod Trie
pub mod Table
