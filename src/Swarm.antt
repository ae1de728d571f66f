-- ===== src/Swarm.antt =====
-- domain/swarm.rs and its parts: the pieces, the requests in flight, the peers, and the swarm that
-- decides on them.
pub mod Tests
pub mod StepTests
pub mod Piece
pub mod PieceLaws
pub mod PieceReceive
pub mod PieceEffects
pub mod PieceRequests
pub mod Manager
pub mod ManagerLaws
pub mod ManagerReceive
pub mod ManagerStep
pub mod ManagerNew
pub mod Assignments
pub mod AssignmentsLaws
pub mod Availability
pub mod Registry
pub mod AvailabilityLaws
pub mod RegistryLaws
pub mod RegistryInvariant
pub mod State
pub mod Plan
pub mod PlanLaws
pub mod PlanRequests
pub mod Uploads
pub mod Step
pub mod Connections
pub mod Extensions
pub mod UploadsLaws
pub mod Invariant
pub mod ConnectionsLaws
pub mod StepInvariant
pub mod Safety
