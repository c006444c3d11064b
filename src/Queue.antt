-- ===== src/Queue.antt =====
-- src/queue.c: the queues between the threads.
pub mod Nodes
pub mod Chain
pub mod Fifo
pub mod Contract
pub mod Trace
pub mod Delete
pub mod Waiting
mod Examples
use ws_server.Base.{ℕ, Bool, List, [], ◌∷◌, ◌++◌, if◌then◌else◌}

-- The size of a node, `QNode_t`.
abbrev pub node_size : ℕ
node_size = 16

-- `push` as its callers see it: the item joins at the end, or is dropped where no node can be
-- allocated (the callers in src/worker.c do not look at the return of -1).
unfoldable pub enqueue {ℓ} : {A : Type ℓ} → (ℕ → Bool) → List A → A → List A
enqueue malloc items item = if malloc node_size then items ++ item ∷ [] else items
