-- ===== src/Sip.antt =====
-- src/sip: messages, calls, transactions, and the processor that drives them.
pub mod Types
pub mod Parser
pub mod World
pub mod Events
pub mod Sinks
pub mod Requests
pub mod Responses
pub mod Processor
pub mod Custody
pub mod Moves
pub mod Ownership
pub mod Dialogs
pub mod DialogSteps
pub mod Diagram
pub mod Registration
pub mod Responded
pub mod Ids
pub mod IdSteps
