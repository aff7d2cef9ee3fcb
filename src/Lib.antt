-- ===== src/Lib.antt =====
-- The simulations behind redisq's diagrams: assets/diagrams/gen runs ports of the queue's Redis scripts
-- and of the consumers' loops, asserts what the drawings promise, and turns the runs into keyframes.
--
-- Parts, and the files that model them:
--   * assets/diagrams/gen/gen_dead.py. Class Redis is Dead/Store.antt: the keys of one queue as a record
--     and its scripts (pop_one, ack, move, tick, wake) as functions on it; tick is cut into its clock rule
--     (moves_clock, begin), its verdict on the members (find_dead, check_member, check_mark) and the reap
--     (reap_dead, move_all, forget). simulate is Dead/Store/Simulate.antt, an event loop over a heap; it
--     calls the scripts. Below Dead/Store stand the proofs: Conserve, Reap, Valid, Handover,
--     Marks, Detect and Wake. Dead/Store/Queue.antt is the abstract queue (the list, and which job an ack ID
--     holds), which Implements relates to the scripts and Simulate/Refines to the run; Simulate/Stops bounds
--     the run's rounds. Dead/Store/Simulate/Facts.antt is facts, with what it asserts of a run (the log is read in Reads);
--     Dead/TimeMap.antt has TimeMap and build_map, Dead/Vis.antt vis and walk, Dead/Swap.antt swap,
--     Dead/Row.antt with Moves and Texts draw_row, Dead/Build.antt build with the clock and the
--     assertion on the seam, Dead/Escape.antt esc. Dead/Build/Tests draws the rules of both rows.
--   * assets/diagrams/gen/gen_wake.py. simulate is Wake/Simulate.antt: two consumers, the idle set, their
--     nudges, wakes, pops and runs. Below it Invariant and Jobs follow the jobs, Members the idle set,
--     and Stops the rounds of a run. Wake/Simulate/Log.antt has the assertions of build on the logs of a run,
--     Wake/Walk.antt walk, Wake/Pulse.antt pulse, and Wake/Chips.antt and Wake/Tracks.antt
--     the tracks that build draws.
--   * assets/diagrams/gen/gen_close.py. Class Sim is Close/State.antt (the state, its plumbing, the wake
--     script), Close/Pull.antt (pop_call, loop, signal) and Close/Sim.antt (the events; on_<kind> is a
--     function, and handle is the dispatch of run). Close/Collapse.antt has collapse and pulse,
--     Close/Chip.antt has chip, Close/Walk.antt walk; Close/Collapse/Lasting
--     is about the states that last, and Close/Pull/Full about a consumer with no free slot. Close/Jobs.antt says where a job can be,
--     Close/Pull/Moves.antt follows the jobs through a pop, and Close/Sim/Keeps through the events and the
--     run; the files named Booked relate busy counts to scheduled ends, and those named Rounds,
--     Close/Sim/Events.antt and Close/Sim/Stops.antt bound the rounds of a run.
--   * assets/diagrams/gen/gen_ack.py. Ack/Walk.antt has path_len and walk, Ack/Build.antt the local functions
--     of build (pop, the sweep), Ack/Run.antt its main line and assertions; Pop and Sweep are the proofs.
--   * assets/diagrams/gen/kfu.py. Kfu/Keyframes (kf, padded), Spans (merge, flash), Pulses (ring), States,
--     Bar, Walk (at, Path), Pool and Rows (Pool.rows); Reading is how CSS reads a rule, and Spans/Lit what a
--     flash shows.
--   * Base.antt: the shared tests, lists, dicts, sorting, heap, integers, and what a call that may raise
--     returns. A dict is an association list in order of insertion, a set a list without repetitions, and
--     heapq a list in order of time and sequence number.
--
-- Consumers "C<n>" and jobs are numbers. Times are whole milliseconds in gen_dead.py and kfu.py, and tenths
-- of a millisecond in gen_wake.py and gen_close.py, the grain to which these round; durations that divide by
-- a speed are kept exact and rounded to the nearest grain. gen_ack.py's times are exact, in parts of
-- 1/420 ms, those of a walk in parts of 1/v ms for its speed v, and those of a TimeMap fractions, which
-- Dead/Row.antt rounds to whole milliseconds. Python's exceptions are results (Base/Results).
-- SPOP is random: gen_dead.py's wake takes any order of picks, gen_wake.py's simulation a list of picks.
--
-- The event loops run on fuel, `none` when it is gone. The scripts' own runs take fewer rounds than they
-- are given: 200 in gen_wake.py and gen_dead.py, 400 in gen_close.py; the tests in Wake/Simulate/Tests,
-- Dead/Store/Simulate/Tests and Close/Sim/Tests evaluate these runs to their ends. Dead/Store/Simulate/Stops,
-- Wake/Simulate/Stops and Close/Sim/Stops give, for any state, a number of rounds that is enough.
--
-- Not modelled: the SVG markup, the text of keyframes, labels and captions with the assertion on their
-- widths, the printed log, frames.py, the bars of gen_wake.py, and the Go client, whose Lua scripts the generators
-- port.
pub mod Ack
pub mod Base
pub mod Dead
pub mod Wake
pub mod Close
pub mod Kfu
