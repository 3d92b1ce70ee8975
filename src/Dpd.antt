-- ===== src/Dpd.antt =====
-- Duplicate packet detection: include/smfDpd.h, include/smfWindow.h and their src/common files.
pub mod Ring
pub mod Links
pub mod Tree
pub mod Flows
pub mod Mask
pub mod Sequence
pub mod Detector
pub mod Sample
pub mod SampleTree
pub mod SampleKeys
pub mod Window
pub mod OldWindow
pub mod Table
pub mod TableTests
mod Tests
mod FlowTests
