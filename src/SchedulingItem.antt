-- ===== src/SchedulingItem.antt =====
-- shinken/objects/schedulingitem.py, and what a host (objects/host.py), a service
-- (objects/service.py) and their base class (objects/item.py) add to it.
pub mod Types
pub mod World
pub mod Blocked
pub mod Notify
pub mod Flapping
pub mod States
pub mod Impacts
pub mod Dependencies
pub mod Downtimes
pub mod Acks
pub mod Handlers
pub mod Phases
pub mod Cases
pub mod Consume
pub mod Schedule
pub mod Keeps
pub mod Attempts
pub mod Samples
mod Examples
