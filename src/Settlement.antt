-- ===== src/Settlement.antt =====
-- pkg/settlement and pkg/accounting: cheques, the traffic service that issues and receives them, and the
-- accounting that asks it to pay.
pub mod Cheque
pub mod ChequeStore
pub mod Heap
pub mod Traffic
pub mod Accounting
