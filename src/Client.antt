-- ===== src/Client.antt =====
-- client/src/main.cpp: the interactive client. Its two threads share `gRunning` and the map from the
-- ids of the user to those of the exchange, which a mutex guards. What `recv` and `send` return is a
-- list in the order of the calls, and a list that ends early is a call that has not returned. A line
-- that the client prints is a value that holds the message; the prompts and the lines that announce
-- what is sent are left out.
mod Text
mod Fields
mod Session
mod Arrivals
mod Console
mod Startup
unfoldable pub use Fields.*
unfoldable pub use Session.*
unfoldable pub use Arrivals.*
unfoldable pub use Console.*
pub mod Numbers
pub mod Lines
pub mod Requests
pub mod Chunks
pub mod Confirms
pub mod Updates
pub mod Extracts
pub mod Sends
pub mod Heard
pub mod Typed
pub mod Hearing
pub mod Tests
pub mod MessageTests
pub mod TypedTests
unfoldable pub use Startup.*
