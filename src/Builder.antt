-- ===== src/Builder.antt =====
-- builder.go: the predicted image, its comparison with the real one, and the session gaps.
pub mod Regions
pub mod Build
pub mod Beside
pub mod RoundTrip
pub mod Sectors
pub mod Complete
pub mod Reproduce
