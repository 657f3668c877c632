-- ===== src/Tester.antt =====
-- code/harness/Tester.cpp, the part of the harness that keeps the log of a workload.
pub mod Profile
pub mod WriteData
pub mod Check
pub mod Devices
pub mod Image
pub mod WrapperLog
