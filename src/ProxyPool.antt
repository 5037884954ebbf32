-- ===== src/ProxyPool.antt =====
-- worker/src/proxy/proxyPool.js: the rotating proxy pool. Redis, the network's answers, the SHA-1
-- of a proxy's URL, the environment and the two regular expressions' verdicts are arguments.
pub mod Candidates
pub mod Health
pub mod Choice
mod Tests
