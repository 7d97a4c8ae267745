-- ===== src/Lib.antt =====
-- bitstar: a store of events with bitmap indexes, written in Go.
--
-- The program keeps events in a memtable (memtable.go) and in levels of bitmap indexes (index.go).
-- An index has one row per event: a bitmap per tag and per annotation, and two bit-sliced indexes
-- (bsi/bsi.go) for the start and the end. A filter (filtering/filtering.go) is evaluated on an index
-- by set operations, and matched against single items of the memtable (match_memtable_item.go). The
-- iterators over the parts are merged into one sequence of keys (iterator_merge.go, compare.go).
--
-- Files:
--   Base: lists, words of 64 bits, byte strings and association lists that the parts share.
--   Roaring: the bitmaps as an interface of operations and laws (the library roaring). Dense: an
--     implementation by lists of bits, on which the examples run.
--   Bsi: bsi/bsi.go. Defs has the state `BSI` and `NewBSI`, `SetValue`, `SetMany`, `GetValue`;
--     Executor has `parallelExecutor`; Compare/Defs has `CompareValue`; Ops has `ParOr`,
--     `ClearValues`, `NewBSIRetainSet`, `Clone`, `Add`, `Increment`; Coding has `MarshalBinary` and
--     `UnmarshalBinary`, BatchEqual the search for values, Transpose the set of all values. The other
--     files there have the proofs.
--   Keys: `EventKey` of index.go, the orders of compare.go and of memtable.go, and the heap.
--   Iterators: Merge has iterator.go and iterator_merge.go, over any iterators with the four calls,
--     Rows has iterator_index.go and Table iterator_memtable.go, each with the list of the keys that it
--     gives; Stale compares the two.
--   Filtering: filtering/filtering.go. Syntax has the tree with its nil pointers, Lexer the regular
--     expression written out, Atoms and Parser the recursive descent, Whole the trees without nil; Fuel
--     counts what every method takes of the input, Built follows what it returns.
--   Memtable: memtable.go and match_memtable_item.go, over a Bloom filter as an interface.
--   Index: index.go. Defs has `indexEvent`, `fromMemTable`, `evalFilter` and `query`; Steps and Agree
--     compare the filter on an index with the filter on an item, Rows, Times and Filled follow the
--     rows of a table, Returns has the panics, Query puts them together, and Text goes from the text
--     of a filter to the rows. Remote has `fromYt`. Merge/Defs has `mergeTwoIndices`, `moveBitmap`
--     and `mergeBSI`: Merge/Rows follows the new rows, Move, Maps and Bsis the bitmaps, Carried puts
--     them together; Kept and Bounded keep the rows of an index within its keys, so that a merge
--     of any size returns.
--   Storage: storage.go. Parts is what it uses of memtables and indexes, as an interface, and Actual
--     fills it in: Tables has `newMemTable` and `putItem` of memtable.go over SkipLists, an interface
--     of the library skiplist; `fromMemTable` and `mergeTwoIndices` are those of Index. Levels has
--     `mergeLevel`; Defs the shared state, `batchCreateEvents` and where the two workers stand; Steps
--     the stores and channel operations of `writeWorker`, `flushWorker` and `Close`, in any order.
--     Coherent, Visible, Readers and Closing follow the steps over any parts, and Promises says what
--     holds with the parts of the program. Pages has the pages of `ListEvents`,
--     over the merge iterator, and Tokens has page_token.go over the codings that it calls.
--   Examples: the theorems at concrete inputs. In Workers the tables and indexes of Storage are lists
--     of numbers; in Promises they are those of the program, over a sorted list.
--
-- Conventions. An `int64` or `uint64` is its bit pattern, a number below 2 ^ 64, and `signed_rank`
-- orders patterns as `int64`. A panic is `none`. Calls that change an object return the changed
-- object; two arguments of a call stand for different objects. A Go map is an association list. The
-- results of goroutines arrive in an order that is a parameter, `arrive`, a permutation.
-- The zone of a time is only told apart in event keys, as local or UTC, since maps compare it.
-- `runtime.NumCPU` is a parameter, and `strconv.Unquote` is one of the parser.
--
-- Fuel. `add_digit` recurses on the number of slices and two: a carry goes at most one slice beyond
-- the last. The parser recurses on eight times the length of the input and eight: every token takes a
-- byte, and between two tokens the descent is at most eight methods deep. `merge_keys` recurses on the
-- sum of the two lengths: each round takes a key. The loops that call an iterator until it ends have
-- the number of calls as fuel: one more than there are rows or items is enough, and `collect` needs no
-- more than the calls after which the merge iterator ends.
--
-- Not modelled: the handlers of requests in storage.go but for the pages of `ListEvents`,
-- `put` of a memtable, `MinMax`, `Sum` and `TransposeWithCounts` of a bit-sliced index, the
-- printers of filters; ytclient, cmd and proto, which are input and output or generated. The locks of
-- a memtable and its wait group are not modelled: a put is one step, and the items of a memtable stay
-- while an iterator runs over them.
pub mod Base
pub mod Roaring
pub mod Dense
pub mod Bsi
pub mod Keys
pub mod Iterators
pub mod Filtering
pub mod Memtable
pub mod Index
pub mod Storage
pub mod Examples
