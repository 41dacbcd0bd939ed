-- ===== src/Frontend.antt =====
-- frontend/src/app: the parts of the Angular client that compute what it shows or submits.
pub mod Earnings
pub mod Actions
pub mod Store
pub mod LocalDatetime
pub mod Schedule
