-- ===== src/WaitingList.antt =====
-- The waiting lists of waiting_list/waiting_list.h. `set` holds each point that was ever inserted.
pub mod Priority
pub mod Queue
pub mod Stack
pub mod Best
pub mod PriorityQueue
