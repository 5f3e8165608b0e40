-- ===== src/Lib.antt =====
-- Verification of the repository's C programs: the Diameter session manager, the big integers, the
-- slab allocator with its ID generator, and the proxy transmission.
--
-- The session manager (diameter-session-manager) keeps user sessions in the call context database
-- (dsm_ccdb.c). A message finds its session by the hash of the session id (dsm_main.c) or by the
-- local transaction id, takes the next state and the action from the table of the CCA server state
-- machine (dsm_fsm.c), and starts and stops the session's two timers in the timer wheel
-- (dsm_tdb.c), whose expiries are events again. The big integers (bigint) are a class of their own,
-- and so are the slab allocator and its ID generator (slab-allocator-memory-cache). The proxy
-- transmission (proxy-transmission) is a program that turns the records of a file into rows of
-- columns.
--
-- Files:
--   Prelude         shared names; Tests, Lists, Int: tests on numbers, lists and integers over the
--                   native numbers; Bits: bitwise operations
--   Dsm/Fsm         dsm_fsm.h, and stt of dsm_fsm.c: the states, events and actions are the
--                   enumerators, one function per state's switch. Table: the table as a whole
--   Dsm/Timer       dsm_tdb.h. Ops: callout_init, callout_set, callout_unset and process_timer of
--                   dsm_tdb.c; Start: initialize_tdb and finalize_tdb. Due: when a callout falls
--                   due. Sets, Unset: callout_set and callout_unset. Lists, Pending, Loop, Ticks:
--                   process_timer. Linked: callouts and lists agree. Empty: finalize_tdb
--   Dsm/Hash        the nine hash functions of dsm_main.c. Horner, Nibble: what they compute
--   Dsm/Ccdb        dsm_ccdb.h. Tid: set_tid_local of dsm_ccdb.c and the session id in a local TID.
--                   Session: user_session_hash, set_package_type, set_asm_id, set_asm_state,
--                   set_flags_trap and check_asm_state. Lookup: user_session_get. Tids, Find,
--                   States, Package: what they do
--   Dsm/Context     the data of a session's call. Copy: proxies, Session-Ids and timers; Save,
--                   Diam, Gdi: set_peer_fe and user_session_save of dsm_ccdb.c; Report, Construct:
--                   qmsg_diamctx_construct; Add: user_session_add; UpdateCp: process_update_cp.
--                   Copied, Request, Answer, Exchange: from a request to its answer. New, Created:
--                   new sessions. Alone, Reported, Errors: messages without a session and error
--                   reports. Closed: retransmissions and closes. Memory, Search, Found: adding and
--                   finding a session. Updated: process_update_cp. Samples: data for the tests
--   Dsm/Sessions    the life of user sessions over the timer wheel. Queue: dgc_qmsg_init to
--                   dgc_qmsg_add of dsm_ccdb.c; Ops: user_session_init, user_session_remove,
--                   initialize_ccdb and finalize_ccdb; UsRemove: process_us_remove. Linked: when a
--                   database is consistent. Drain, Remove, Keep, Indexed: user_session_remove.
--                   Add, Start, Finalize, Gone: the others
--   BigInt          bigint.h, and two constructors, operator= and comparisons of bigint.c. Ops: its
--                   arithmetic. Limbs: the integer that a number stands for. Sum, Arith: add_same.
--                   Diff, Subtract: add_diff. Order: the comparisons. Laws, Plus: the operators.
--                   Text: BigInt (char *) and operator<<; Text/Value, Print, Parse, Laws: the
--                   numbers that texts stand for
--   IdGen           the ID generator of fep_slab.c. Valid: its lists and user data
--   Proxy           delimit of ProxyTransmission.c. Records: its layouts and the switch on a
--                   line's ID; Main: the loop of main. Columns: the delimiters that delimit
--                   writes. History, Accept: the sequences of records that the program accepts
--   Slab            fep_slab_block_alloc, fep_slab_alloc_from_slot and fep_slab_alloc of
--                   fep_slab.c. Fit: the slot that is chosen. Alloc: the object that is handed out.
--                   Free: fep_slab_block_free and fep_slab_free. Delete, Freed: what they do
-- A file Tests in a folder holds runs at concrete inputs.
--
-- State is a record that the functions take and return. A null pointer is none. A list of
-- sys/queue.h is the list of its elements, a callout or session is named by its id, and the
-- counters of meas are fields, or in Dsm/Sessions and Dsm/Context the list of those incremented. A
-- user session has in Dsm/Ccdb, Dsm/Sessions and Dsm/Context the fields that the functions there
-- name. A removal from a list that does not hold the element is a fault.
--
-- Bounds. The loops over a list whose members they remove run on fuel: those of process_timer,
-- finalize_tdb, user_session_remove and finalize_ccdb. Any fuel above the length of the list is
-- enough. The other loops are structural. The hashes are on unsigned ints of 32 bits, and local
-- transaction ids on an unsigned long of 32 bits, as their masks have. The limbs of a big integer
-- are natural numbers: a difference is tested before it is formed, and no sum of two limbs and a
-- carry reaches 2^31. Timers in seconds are shorts of 16 bits. The constructor from an int is for
-- ints other than the least one.
--
-- Parameters. The sizes of the slab allocator's headers are arguments. The buffers, the clock and
-- tell_dgc of the FEP are arguments of Dsm/Sessions, any functions of a state of theirs. The
-- private memory pool of fep_memory and the callbacks of the timer wheel are arguments, and so are
-- the results of conf_get_state, conf_get_fe_number, conf_get_csi_number, conf_get_associate,
-- conf_get_local_state_id and time, one value while a message is processed, and the constants of
-- the headers that the repository does not hold. The theorems on process_timer are for ticks in
-- which each callback that is run leaves the wheel's index, the list that is being processed and the
-- callouts still on it as they are. A callback that unsets a later callout of that list, as the
-- end of a session may, is outside this hypothesis.
--
-- Not modelled: the other message handlers of dsm_ccdb.c, which call the functions of Dsm/Context
-- and Dsm/Sessions, the text of errorString, the message loop of dsm_main.c and dsm_driver.c, debug
-- prints, the set-up of the slab allocator, the files and error messages of the proxy transmission,
-- and the programs of the repository that are not in C.
pub mod Prelude
pub mod Dsm
pub mod BigInt
pub mod IdGen
pub mod Proxy
pub mod Slab
