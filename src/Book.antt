-- ===== src/Book.antt =====
-- matching/include/order_book.hpp and matching/src/order_book.cpp: the order book of one symbol.
mod State
mod Matching
mod Api
pub mod Linked
pub mod Spec
pub mod View
pub mod Round
pub mod Held
pub mod Inner
pub mod InnerLoop
pub mod Sound
pub mod Entry
pub mod Valid
pub mod Adding
pub mod Matched
pub mod Rules
pub mod Sides
pub mod AddOrder
pub mod Located
pub mod Unlisting
pub mod Leaving
pub mod Finding
pub mod Found
pub mod Resizing
pub mod CancelOrder
pub mod Keeping
pub mod Modifying
pub mod ModifyOrder
pub mod Enqueue
pub mod Sweeping
pub mod Volumes
pub mod Conservation
pub mod Fairness
pub mod Sorted
pub mod Best
pub mod Uncrossed
pub mod Queueing
pub mod Samples
pub mod Runs
pub mod Tests
unfoldable pub use State.*
unfoldable pub use Matching.*
unfoldable pub use Api.*
