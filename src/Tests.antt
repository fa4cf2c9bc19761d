-- ===== src/Tests.antt =====
-- Concrete inputs at which the theorems are applied.
mod CacheTests
mod PollTests
mod StockTests
mod ApTests
mod PushTests
mod NetTests
mod CoreTests
mod MlTests
mod RemoteTests
mod FleetTests
