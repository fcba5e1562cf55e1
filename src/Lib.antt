-- ===== src/Lib.antt =====
-- OxiDD, a framework for decision diagrams: the core of its binary decision diagrams.
--
-- A diagram is a set of hash-consed nodes in a store that a manager owns. An algorithm walks two
-- or three edges at once, asks an apply cache before it descends, and inserts the nodes of the
-- result into the unique table of their level.
--
--   Manager      crates/oxidd-manager-index/src/manager.rs: slots, free list, unique tables.
--                `Manager.Valid` is the invariant, `Placed`, `Insert` and `Levels` are about
--                new nodes and levels.
--   Tree         what a diagram stands for, the sharing forgotten: an ordered decision tree.
--   Represents   the refinement from edges of a store to trees and to Boolean functions.
--   Cache        the trait `ApplyCache` of crates/oxidd-core/src/lib.rs as a record with its law;
--                `Cache.Direct` is crates/oxidd-cache/src/direct.rs; `Cache.Direct.Collection` is about
--                clearing, `Cache.Direct.Answers` about what is found again, `Cache.Direct.Capacity`
--                about the number of entries. A call of `lock` on a held entry waits, so it returns
--                with the entry locked.
--   Simple       crates/oxidd-rules-bdd/src/simple/mod.rs: operators, terminal cases, reduction.
--                `Simple.Apply`, `Simple.Quantify`, `Simple.Restrict`, `Simple.Substitute` and
--                `Simple.Prepare` are the recursions of simple/apply_rec.rs, with `set_pop` of
--                crates/oxidd-rules-bdd/src/lib.rs. `Simple.Count` counts assignments,
--                `Simple.Pick` picks cubes, `Simple.Functions` is the function interface,
--                `Simple.Meaning` the meaning of the operators on Boolean functions,
--                `Simple.Ensures` the rules by which an algorithm is treated, `Simple.Reachable`
--                sequences of calls, `Simple.Start` the first state.
--   Table        crates/linear-hashtbl/src/raw.rs: the hash table with linear probing, over the record
--                `Status` for the trait of that name. `Table.Search` has the searches, `Placed` and
--                `Valid` the invariant, the other modules are about one operation each.
--   Saturating   crates/oxidd-core/src/util/num.rs: the saturating numbers of model counting.
--   Mtbdd        crates/oxidd-rules-mtbdd: `Mtbdd.Terminal` has the terminal cases of src/lib.rs over
--                the record `NumberBase` (`Mtbdd.Terminal.Laws` and `Mtbdd.Terminal.Extremum`),
--                `Mtbdd.Int64` the integers of src/terminal/int64.rs.
--   Outcome      allocation results and panics; an error keeps the changes made before it.
--   Tests        concrete runs.
--
-- An algorithm is a state transformer on the store and the cache, and the client of the record
-- `ApplyCache`. The recursion descends by one level with each call and is on fuel; the function
-- interface gives one unit more than there are levels: every call is on children, which lie at
-- lower levels, and the last one is on terminals.
--
-- A probing loop of the hash table has one unit of fuel for each slot: a valid table has a free slot,
-- and a search has visited every slot by then. Debug assertions and overflow checks are panics.
--
-- Not modelled: reference counts, garbage collection and reordering (nothing is removed from the
-- store while an algorithm runs), threads (the recursor is the sequential one, but an entry of
-- the cache may be found locked), statistics, picking with a set of literals, and the iterators
-- of the hash table with `drain` and `retain`. The hasher of the cache is a parameter.
pub mod Prelude
pub mod Tree
pub mod Outcome
pub mod Manager
pub mod Represents
pub mod Cache
pub mod Saturating
pub mod Simple
pub mod Table
pub mod Mtbdd
pub mod Tests
