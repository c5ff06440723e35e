-- ===== src/Cognition.antt =====
-- internal/cognition: the decision-class registry, the router, the staleness debt, the adaptive
-- throttle governor and the live estimator. Floating-point numbers are a parameter (`Floats`).
pub mod Floats
pub mod Registry
pub mod Route
pub mod Debt
pub mod Governor
pub mod Estimator
