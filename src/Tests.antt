-- ===== src/Tests.antt =====
-- The theorems at concrete inputs, one module for each part of the program.
mod Server
mod PairList
mod Hexadecimal
mod Common
mod Shard
mod Core
mod Json
mod RealIp
