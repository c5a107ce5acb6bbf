-- ===== src/Rating.antt =====
-- app/rating: the pricing engine and its rate tables.
pub mod Engine
pub mod Tables
