-- ===== src/Session/Laws.antt =====
-- What a caller of the session store may rely on.
pub mod Removal
pub mod Sparing
pub mod Liveness
pub mod Renewal
pub mod Delivery
pub mod Refreshing
pub mod Sweeping
pub mod Erasing
pub mod Admission
pub mod Origins
pub mod Caching
