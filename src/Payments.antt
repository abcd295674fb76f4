-- ===== src/Payments.antt =====
-- api-web/app/payments: the webhooks of the payment providers, from their claim to the subscription.
pub mod Status
pub mod Tests
pub mod Trace
pub mod Transition
pub mod Activation
pub mod Checks
pub mod Claims
pub mod Grounds
pub mod Handler
pub mod Named
pub mod Justified
pub mod Renewals
pub mod Safe
pub mod Settled
