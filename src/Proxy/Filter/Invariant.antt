-- ===== src/Proxy/Filter/Invariant.antt =====
-- The ResponseFilter (proxy/filter.go) over any history of calls: the two goroutines of the proxy
-- make them in any order, each call being one step under the filter's lock.
mod Keeps
mod Answers
unfoldable pub use Keeps.*
unfoldable pub use Answers.*
