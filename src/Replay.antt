-- ===== src/Replay.antt =====
-- Replay protection: src/protocolReplay.ts, src/replayStores.ts, src/redisClient.ts.
pub mod Heap
pub mod Cache
pub mod Memory
pub mod Store
pub mod Redis
