-- ===== src/Lib.antt =====
-- nomos-rt is the C++ runtime that the processes of the nomos-studio ecosystem share: a control
-- thread takes framed messages from a socket, containers without locks carry events to the
-- audio thread, and modulators run at block rate. This library models its parts as functions on
-- explicit states and proves what they promise. Paths are from the repository's root.
--
-- Common holds the shared names, lists indexed by native numbers, texts as bytes, and the laws
-- of the bit operations. Machine words are natural numbers with their wrap-around written out;
-- a signed word is its bit pattern unless its module says otherwise.
--
-- SmallVector (include/nomos/rt/small_vector.hpp) is the bounded vector: a record of the array
-- and the size, one function for each member function. SmallVector.Laws relates it to the list
-- of its elements.
--
-- SpscQueue (include/nomos/rt/spsc_queue.hpp) is the ring buffer. SpscQueue.Capacity turns the
-- static assertion on the capacity into arithmetic, SpscQueue.Fifo is the abstract queue,
-- SpscQueue.Refine relates the two for whole calls, and SpscQueue.Threads lets the accesses of
-- the producer and the consumer interleave under a schedule. The acquire and release orders are
-- taken to make the accesses of each thread take effect in the order written.
--
-- Rcu (include/nomos/rt/rcu.hpp) is the pointer that a writer replaces while guards read. Its
-- calls are cut into their accesses of what is shared, Rcu.Steps lets them and the callbacks of
-- liburcu follow one another in any order, and liburcu, which is not in the repository, is what
-- its documentation says of a grace period. Rcu.Invariant is the invariant, Rcu.Safety and
-- Rcu.Drain say what is kept and what is deleted, and Rcu.Objects carries a property of the
-- objects. Deletion is exact: an object is the number of its allocation and no number is given
-- twice.
--
-- Events holds the CLAP events that the code moves. CLAP itself is not in the repository.
--
-- Scheduler (include/nomos/rt/event_scheduler.hpp) holds events until their beat,
-- EventCollector (src/event_collector.cpp) turns the CLAP events that a plugin puts out into
-- blocks of MIDI messages, and InputBuffer (src/input_event_buffer.cpp) collects the events
-- that a plugin gets. All three use SpscQueue and the theorems of SpscQueue.Refine and
-- SpscQueue.Bursts. Beats are an ordered type with the comparisons as parameters; the
-- conversion of a velocity is a parameter. Their loops over a queue take fuel, and the capacity
-- of the queue or of the array is enough.
--
-- TimeIdentity (include/nomos/rt/time_identity.hpp) is the time line of a process with the
-- transition that waits for its beat.
--
-- CommonArgs (include/nomos/rt/common_args.hpp) reads the command line, with the conversions of
-- the C library as parameters.
--
-- MidiIo (src/midi_io.cpp) is the MIDI ports: RtMidi is a parameter, with a state for each
-- direction. MidiIo.Notes follows notes from the bytes that are sent to the queue, and
-- MidiIo.Thru on to the event collector.
--
-- Modulators.Engine (include/nomos/rt/modulator_engine.hpp, src/modulator_engine.cpp) is the
-- table of modulators with its tick order. A modulator is a state with its two virtual
-- functions as parameters. Modulators.Engine.Shared puts the table behind its RCU pointer, with
-- the writers and the tick thread in any order; Modulators.Registry
-- (include/nomos/rt/modulator_registry.hpp) holds further constructors.
--
-- Modulators.Floats lists the operations on floats that the single modulators use, as a record
-- of parameters. Modulators.Graph is the graph modulator (src/graph_modulator.cpp): the parser
-- of control graphs, which recurs on the expression, Modulators.Graph.Order the topological
-- order that it keeps, Modulators.Graph.Eval the evaluation of the nodes, tick and update, and
-- Modulators.Graph.Fresh what a tick reads. Modulators.ShiftRegister is
-- src/shift_register_modulator.cpp, with Modulators.ShiftRegister.Alive on its register.
-- Modulators.Sources is what four more have in common, the reading of other modulators and sums
-- of weights: Modulators.DivineCmos (src/divine_cmos_modulator.cpp), Modulators.Cipher
-- (src/cipher_modulator.cpp), Modulators.BoolsRing (src/bools_ring_modulator.cpp) and
-- Modulators.Statues (src/statues_modulator.cpp). Modulators.CvDecoder
-- (src/cv_channel_decoder.cpp) and Modulators.Genie (src/genie_modulator.cpp) use it too.
-- Modulators.Segment is src/segment_modulator.cpp, with its calls in Modulators.Segment.Run,
-- the range of its index in Modulators.Segment.Range and the names of its parameters in
-- Modulators.Segment.Keys; Modulators.Slew is src/slew_modulator.cpp.
--
-- Ipc is the framed channel: Ipc.Stream says what the system calls read and write may return,
-- as interfaces, Ipc.Channel is src/ipc_channel.cpp, Ipc.Transfer the two loops, Ipc.Frames
-- what is read, Ipc.Write what is written and Ipc.RoundTrip the two together. The loops take
-- fuel; more than the bytes to move and the interruptions to come is enough.
--
-- Osc.Encode is include/nomos/rt/osc_encode.hpp, Osc.Wire the OSC layout written down by
-- itself, Osc.Server the packet handling of src/osc_server.cpp with the socket and the
-- callbacks as recorded effects. Floats are carried as bit patterns there, which is what the
-- code does.
--
-- Edn holds the values of the EDN library, Numbers the operations on doubles and floats that
-- the code uses, as a record of parameters, and Session the session of src/session.cpp with the
-- calls of its log recorded. The libraries themselves are not in the repository.
--
-- Control is the control thread, src/rt_control_thread.cpp. Control.Host lists what it is given
-- and does not implement: the EDN parser and its lookup, numbers, the constructors of the
-- modulators, the Lua participant, the database, the address parser and the callback for a hot
-- swap. Control.State is its state: the session, the queues, the engine and what has been sent
-- and answered, a pointer of the configuration that may be null being an Option. There is a
-- module for the handlers of each kind of message: Control.Log, Control.Notes, Control.Osc,
-- Control.Midi with Control.Mts, Control.Modulators and Control.Repl; Control.Uuid reads the
-- ids of the log. Control.Dispatch is dispatch_message over the table of message numbers,
-- dispatch_ctrl_frame for frames from a buffer, and handle_connection for a connection, where
-- the values that the loads of the running flag see are a list and bound the rounds.
-- Control.Sound is the invariant of the state. What push_frame writes from another thread, the
-- accept loop, the start and the stop of the thread and its log lines are left out; messages
-- are dispatched one at a time.
--
-- Control.Connection is the thread that accepts connections, with push_frame and stop of other
-- threads, in steps that interleave; it leaves what a connection is served to Control.Dispatch.
--
-- Not modelled are the other modulators, the Lua participant, and the wrappers of audio and
-- Link devices: they are arithmetic on floats, or calls of libraries that the repository does
-- not contain.
pub mod Common
pub mod SmallVector
pub mod SpscQueue
pub mod Rcu
pub mod Events
pub mod Osc
pub mod Ipc
pub mod Scheduler
pub mod EventCollector
pub mod InputBuffer
pub mod MidiIo
pub mod Modulators
pub mod TimeIdentity
pub mod CommonArgs
pub mod Edn
pub mod Numbers
pub mod Session
pub mod Control
