-- ===== src/IpPool.antt =====
-- pkg/tools/ippool: the pool of free IP addresses.
pub mod Address
pub mod Range
pub mod Prefixes
pub mod Tree
pub mod Chain
pub mod Pool
