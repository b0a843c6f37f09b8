-- ===== src/Op.antt =====
-- The instructions of the virtual machine.
pub mod Alu
pub mod Move
pub mod Make
pub mod Query
pub mod Access
pub mod Cast
pub mod Float
pub mod Ambient
pub mod Node
pub mod Control
