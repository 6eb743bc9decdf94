-- ===== src/Tests.antt =====
-- The theorems at concrete inputs, and tests.
mod Toy
mod Content
mod Game
mod Sessions
mod Login
mod Provider
mod Delivery
mod Registration
mod Reset
mod Limits
mod CodeRequests
mod Contacts
