-- ===== src/Tests.antt =====
-- The theorems at concrete inputs, and runs of the definitions.
mod TimerQueue
mod FdMap
mod Sessions
mod Results
mod Rules
mod Calls
mod NameCallbacks
mod Proxies
mod Paths
mod Interfaces
mod Json
mod Numbers
mod Library
mod Containers
mod Comparisons
mod Messages
mod Documents
mod Subscribers
