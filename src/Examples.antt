-- ===== src/Examples.antt =====
-- Concrete runs: tests of the definitions, and instances of the theorems.
mod OfLease
mod OfRegistry
mod OfWorker
mod OfGate
mod OfAudit
mod OfPlanner
mod OfNetwork
mod OfStorage
mod OfPayload
mod OfExecution
mod OfCreation
mod OfControl
mod OfSecurity
mod OfTriage
