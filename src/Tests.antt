-- ===== src/Tests.antt =====
-- Concrete inputs, tests by evaluation, and each theorem at an input that meets its hypotheses.
mod Fixtures
mod AppetiteTests
mod RatingTests
mod SystemTests
mod ClientTests
mod TokenTests
mod ViewTests
mod AuthTests
mod RetryTests
mod MigrationTests
mod OverlapTests
mod AnswerTests
mod FlowTests
mod WiringTests
mod PriceTests
mod RebindTests
mod GuardedTests
