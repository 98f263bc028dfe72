-- ===== src/Lib.antt =====
-- A verification library for mitum2, the general purpose blockchain in this repository.
--
-- The program: nodes of a suffrage vote on each block in two stages, INIT and ACCEPT, of a round of a
-- height (base/). The votes of a point are counted (base/vote.go) into a voteproof (isaac/), and a node
-- remembers the last point and the last voteproofs, by which it tells what is new (isaac/lastpoint.go,
-- isaac/last_voteproofs.go). The ballots of a stage point are gathered and counted by the records of
-- the ballotbox (isaac/states/ballotbox.go), against a suffrage (isaac/suffrage.go) and a threshold
-- (base/threshold.go); nodes that are to be expelled are left out.
--
-- Which file models which part:
-- - Prelude: tests on numbers, lists, signed integers with the wrap of int64, texts as lists of bytes.
-- - Base/Point: base/point.go. `Height` is an int64, `Round` a uint64; additions wrap. A comparison's
--   1, -1 and 0 are `gt`, `lt` and `eq`; `IsValid` is `true` where the source returns no error.
-- - Base/StagePoint: base/stage.go and `StagePoint` of base/point.go.
-- - Base/Vote: base/vote.go. The order in which `range` visits the map of counts is an argument.
-- - Base/Threshold: base/threshold.go. A float64 is a number of units of 2^-1074, and each operation
--   rounds to the nearest, to even; NaN, infinite and negative values have no form here. `excess` has
--   fuel 1100, enough below 2^1153 units.
-- - Isaac/Suffrage: isaac/suffrage.go, and the checks of an expel of isaac/suffrage_operation.go.
-- - Isaac/Voteproof: the data of isaac/voteproof.go and isaac/ballot_fact.go that the consensus reads.
-- - Isaac/LastPoint: isaac/lastpoint.go.
-- - Isaac/LastVoteproofs: isaac/last_voteproofs.go. `Outcome` tells a panic of a type assertion from an
--   answer. The LRU cache is a third-party one, and is a parameter.
-- - States/VoteRecords: the `voterecords` of isaac/states/ballotbox.go. The suffrage of a height and the
--   validity of a voteproof are functions of the node (`Env`); a time is a number of nanoseconds, and
--   a zero time is `none`. A map is an association list in the order of one iteration. Voting is in
--   States/VoteRecords, expels in its Expels and counting in its Count.
-- - States/Ballotbox: `Ballotbox` of isaac/states/ballotbox.go. A `*voterecords` is a number, the heap
--   tells what it points to, and the pool is a list of such numbers: a record that is put into the
--   pool while it stands in the map is then shared. Which item the pool gives is an argument. The
--   text of a stage point is taken for the stage point itself, since different ones differ in it.
-- - States/Switch: isaac/states/states.go, isaac/states/states_handover.go, isaac/states/handler.go and
--   isaac/states/broken.go. What handlers answer is a function of the number of handlers that were
--   entered so far (`Handlers`). Check has the check of a switch (`checkStateSwitchContext`) and one
--   switch (`switchState`, `exitAndEnter`); Ensure the loop of `ensureSwitchState` on fuel, of which
--   eight rounds are enough, and the main loop over what comes in; Brokers what happens to the brokers
--   of a handover, next to what is allowed, with the calls of isaac/states/syncing.go,
--   isaac/states/handover.go and isaac/states/handover_y.go that set it; and Asked what is asked before
--   one starts, with the functions that launch/handover.go passes. What a broker does in a goroutine,
--   later, is a step of its own.
-- - Isaac/Operation: the processors of isaac/operation/suffrage_join_processor.go,
--   isaac/operation/suffrage_candidate_processor.go, isaac/operation/suffrage_disjoin_processor.go and
--   isaac/operation/suffrage_expel_processor.go, and the mergers that make the next suffrage and the next
--   candidates. The constraint functions of PreProcess and of Process and `sort.Slice` are parameters; a set of addresses is a list.
--   An operation to leave is taken to be signed, so that it has a first signer.
-- - Util/FixedTree: util/fixedtree/tree.go, util/fixedtree/node.go and util/fixedtree/writer.go. The
--   logarithm of float64 numbers and the hash function are parameters (`Platform`); a nil node is
--   `none`, and a nil dereference is `panicked`.
-- - Util/Ps: util/ps/ps.go. A context is of any type, a function that is nil is `none`, and the panic of a
--   nil call goes up as an error does. `PS.run` is on fuel, since processes may require one another: if
--   what each requires is of a lower rank, a fuel above all ranks is enough. The sorting of the names is
--   a parameter. Order has the order of the hooks; Process the processes, Turn and Whole their run
--   and Closing their closing.
-- - Isaac/ExpelPool: the operations that expel a node, of isaac/database/pool.go, with the key of
--   isaac/database/leveldb.go. The pool is a list in the order of the backward iteration.
-- - Isaac/ExpelVoting: isaac/suffrage_voting.go, with the signs of base/base_operation.go. What `sort.Slice`
--   does is a parameter. First has which combination is found, Found what `Find` gives, Voted `Vote`.
-- - Isaac/VoteproofValid: base/voteproof_isvalid.go and isaac/voteproof_isvalid.go. Whether a single fact and
--   a signed fact are valid is a function (`Valid`). Quorum has what two valid voteproofs share;
--   States/VoteRecords/Count/Valid relates the check to what counting gives.
-- - Isaac/Processors: isaac/proposal_processors.go, with util/retry.go. What is answered to a call is an
--   argument of it (`Answers`); the goroutine of `Process` keeps the lock, so that it belongs to the call.
--   A processor is told by its number. Saved has the heights that are saved, Steps what becomes of a
--   processor, Made for which proposal it is.
-- - Util/Batch: `BatchWork` of util/worker.go. The jobs of a batch, which run at the same time, are listed in
--   the order of their indices; a size as fuel is enough, since a batch has one index or more.
--
-- Not modelled: storage, network, encoding and the launch of a node, which are input and output, nor what
-- the handlers of the consensus do with a voteproof, the messages of the handover, and the
-- making of a proposal and the work of one processor on its operations, which are parts of their own
-- around this one.
--
-- Locks are not modelled: each method of a locked object is one step.
pub mod Prelude
pub mod Base
pub mod Isaac
pub mod States
pub mod Util
