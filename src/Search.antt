-- ===== src/Search.antt =====
-- The worklist search that the graph queries share: a queue of states, a set of visited states, an
-- answer at some states. The fuel counts the states that may still be expanded.
mod Loop
mod Sound
mod Fuel
mod Complete
pub use Loop.{Reaches, here, step, Strategy, IsFair}
unfoldable pub use Loop.{search}
pub use Sound.*
pub use Complete.*
