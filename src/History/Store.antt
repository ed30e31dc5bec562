-- ===== src/History/Store.antt =====
-- internal/history/store.go: the bounded store of revisions.
--
-- A method takes the time that it reads from the clock, and returns the new store. The code holds
-- `*Revision` and `*objectState` pointers: a retained revision is named by its sequence number,
-- which `append` gives to no other, and an object state by the UID under which the map holds it.
-- `journal` is the list of the calls made to the persister so far, `none` for a store without one.
pub mod Defs
pub mod Commit
pub mod Ops
pub mod Prime
pub mod Reads
pub mod Stable
pub mod Runs
pub mod Accounting
pub mod Order
pub mod Pointers
pub mod Within
pub mod Bounds
pub mod Lookup
pub mod View
pub mod Mirror
pub mod Current
pub mod Listing
