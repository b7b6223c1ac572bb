-- ===== src/Tests.antt =====
-- Runs on concrete inputs, and instances of the theorems at them.
mod Bucket
mod ListLru
mod Decimals
mod Fractions
mod CacheTests
mod KeyTests
mod RouterTests
mod NegotiateTests
mod ParamsTests
mod HttpTests
mod OriginTests
mod ConfigTests
mod ServerTests
mod HandlerTests
mod ServedTests
mod DecodedTests
mod StoreTests
mod PipelineTests
mod ThumbhashTests
