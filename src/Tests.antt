-- ===== src/Tests.antt =====
-- The theorems at concrete inputs.
mod HttpTests
mod ReplyTests
mod ServerTests
mod ChatTests
mod ClientTests
mod CoroTests
mod CoroServerTests
mod FetchTests
mod ServiceTests
mod OtherTests
