-- ===== src/Lib.antt =====
-- The C extension of the gem endpoint_security, ext/endpoint_security/: a Ruby client of Apple's
-- Endpoint Security framework. The framework calls the client back with messages from its own
-- threads; the callback puts them into a bounded ring, a pipe wakes the Ruby dispatcher, the dispatcher
-- takes them out and answers those that ask for authorization, and a watchdog thread answers in time
-- what Ruby does not.
--
-- Files:
--   Slot, Queue       ext/endpoint_security/queue.h and queue.c. Queue has each function as one call that
--                     nobody interrupts (esrb_queue_init is init, and so on); Queue/Threads has
--                     the same functions one atomic operation at a time, for any number of
--                     threads in any order. Queue/Valid is the invariant between calls, Queue/Calls
--                     the view of the ring as a list of waiting messages.
--   Watchdog          ext/endpoint_security/watchdog.c: the request ring (arm, request_pop) and the deadline
--                     heap (heap_set, heap_remove, heap_up, heap_down); Watchdog/Fire is a turn of
--                     esrb_watchdog_main (round) with answer_due, by Watchdog/Take (the requests),
--                     Watchdog/Fired (the deadlines) and Watchdog/Round (the whole).
--   Protocol          client.c, message.c, watchdog.c and queue.c of ext/endpoint_security where they
--                     meet on one slot: the callback, the Ruby side, the watchdog and the thread
--                     that closes the client, as steps on the fields of the slot.
--   Client            ext/endpoint_security/client.c: Client/Initialize is client_initialize, Client/Callback
--                     handle_message, Client/Dispatch client_drain and client_stats, Client/Close
--                     client_close_native, Client/Lifetime client_allocate, client_free and the
--                     methods that close and wake; Client/Access is get_client and get_open_client,
--                     the check of the process and of `closed` in front of every method.
--   Wakeup            ext/endpoint_security/client.c, esrb_notify and client_drain one atomic operation at a
--                     time: any number of callbacks, the pipe, and the dispatcher that waits for it.
--   Message           ext/endpoint_security/message.c: the Ruby object around a slot; Message/Readers has
--                     its header and its views, Message/Allow what allow! and deny! answer.
--   Mute              ext/endpoint_security/mute.c and the subscriptions of client.c: the control operations
--                     as the call of the framework that they make. Mute/Tokens converts audit
--                     tokens, Mute/Copies what the framework lends.
--   Field             ext/endpoint_security/field.c: the lookup of schemas and fields, the version gate in front
--                     of every field, and hexadecimal strings. Field/Text has the calls of string.h and
--                     referenced_schema_name, Field/Value the Ruby values and what the SDK's structs hold,
--                     Field/Convert the structs, Field/Union the unions and arrays, and Field/Read
--                     read_field by the type of a field, and exec_values. A run of `if` with a
--                     `return` each is a table there (Field/Choose). Field/Tables is the generated
--                     generated/es_schema.c, row by row. The owner of a view is the Ruby object of a
--                     message, which get_view asks for its process and whether it is valid.
--   Esapi, Ruby       what the extension sees of the framework and of Ruby. Neither is part of the
--                     repository: the framework is the parameter `Framework`, which gives the
--                     message behind a pointer and the result of each call after the calls before it;
--                     Ruby's values are data.
--   Base              shared helpers: Boolean tests on numbers, arithmetic of 32 and 64 bits, tables.
--
-- State is passed explicitly. A C array is a function of the index, a slot is named by its index and
-- a pointer to a message or to a client by a number. The calls of the framework and the bytes
-- written to the pipe are recorded in `calls`, the latest first. A double (deadline_margin) is
-- given by what its product with a number of ticks is. es_event_type_t is unsigned.
--
-- Bounds. Counters of 64 and 32 bits wrap as in C. The positions of the rings are assumed to stay below
-- 2^61 and capacities are at most 2^61: that many messages never come. The retry loops of a
-- compare-and-exchange have fuel for two rounds, of which an uninterrupted call needs one; a call that
-- would go on gives `none`. heap_up has the index as fuel, heap_down the size of the heap, the loop over the due
-- entries the size of the heap, the loop over the requests the capacity, and the drain of a close the capacity.
-- In Queue/Threads nothing has fuel.
--
-- Not modelled: how the SDK's structs lie in memory (what their members hold is the parameter `Sdk`),
-- audit_token_for_pid, message_time_left, which computes a double, the mock of
-- the framework, the Ruby library, memory orders weaker than sequential consistency, the system
-- calls on the pipe, the conversion of the arguments that Ruby passes, and the scheduling of threads.
pub mod Base
pub mod Slot
pub mod Queue
pub mod Watchdog
pub mod Protocol
pub mod Esapi
pub mod Client
pub mod Ruby
pub mod Message
pub mod Mute
pub mod Field
pub mod Wakeup
